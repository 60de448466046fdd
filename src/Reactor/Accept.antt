-- ===== src/Reactor/Accept.antt =====
-- A connection that the reactor accepts, as a destination of the routes.
use embedded_device_forwarde.Prelude.{
  [], ℕ, ◌-◌, ◌<◌, ◌≡◌, refl, ◌∙◌, ap, sym, List, true, false, Option, none, some, length,
  take-length, arith,
}
use embedded_device_forwarde.Prelude.Int.{ℤ, is_negative}
use embedded_device_forwarde.Prelude.Text.{Text}
use embedded_device_forwarde.Config.Types.{name_size, PortType, Port, Route, is_server}
use embedded_device_forwarde.Ports.Table.{Slot, port_find, put, add_port}
use embedded_device_forwarde.Ports.Add.{has_free, port_find-put}
use embedded_device_forwarde.Reactor.Route.{Handler}
use embedded_device_forwarde.Reactor.Turn.{Turn, client_port, on_accept, turn}

-- The port with this fd is what a search by the name finds, and epoll watches it.
pub Reachable : Text → ℤ → Turn → Type 0
Reachable name fd t =
    (c : Port) × (port_find name t.table ≡ some c) × (c.fd ≡ fd) × (t.watched ≡ some fd)

pub on_accept-put :
    (kind : PortType) (server : Port) (fd : ℤ) (table : List Slot)
    → is_negative fd ≡ false
    → Path Turn (on_accept kind server fd table) (record {
      table = put (client_port kind server fd) table;
      pushed = [];
      watched = some fd;
      closed = none;
    })
unfolding on_accept add_port
on_accept-put kind server fd table ef = rw ef

on_accept-Reachable :
    (kind : PortType) (server : Port) (fd : ℤ) (table : List Slot)
    → is_server kind ≡ false
    → is_negative fd ≡ false
    → length server.name < name_size
    → has_free table ≡ true
    → port_find server.name table ≡ none
    → Reachable server.name fd (on_accept kind server fd table)
unfolding Reachable
on_accept-Reachable kind server fd table ek ef h free en =
    let c = client_port kind server fd in
    let whole : c.name ≡ server.name = take-length (name_size - 1) server.name (omega arith) in
    let added = on_accept-put kind server fd table ef in
    (
      c,
      ap (λ t. port_find server.name t.table) added
          ∙ ap (λ name. port_find name (put c table)) (sym whole)
          ∙ port_find-put c table ek free (ap (λ name. port_find name table) whole ∙ en),
      refl,
      ap (λ t. t.watched) added,
    )

-- A connection on a TCP or IPC server, whose name is shorter than its array, is the destination
-- for the server's name from then on, and is watched, if a slot of the table is free and no other
-- port, but for servers, has the name.
pub turn-Reachable :
    (handlers : Text → Option Handler) (routes : List Route) (k : PortType) (server : Port)
    → (fd : ℤ) (stack bytes : List ℕ) (table : List Slot) → is_server k ≡ true
    → is_negative fd ≡ false
    → length server.name < name_size
    → has_free table ≡ true
    → port_find server.name table ≡ none
    → Reachable server.name fd (turn handlers routes k server fd stack bytes table)
unfolding turn
turn-Reachable handlers routes PortType.tcp_server server fd stack bytes table e =
    on_accept-Reachable PortType.tcp_client server fd table refl
turn-Reachable handlers routes PortType.ipc_server server fd stack bytes table e =
    on_accept-Reachable PortType.ipc_client server fd table refl
turn-Reachable handlers routes PortType.tty server fd stack bytes table e = absurd (cc e)
turn-Reachable handlers routes PortType.usb server fd stack bytes table e = absurd (cc e)
turn-Reachable handlers routes PortType.udp server fd stack bytes table e = absurd (cc e)
turn-Reachable handlers routes PortType.tcp_client server fd stack bytes table e = absurd (cc e)
turn-Reachable handlers routes PortType.ipc_client server fd stack bytes table e = absurd (cc e)
