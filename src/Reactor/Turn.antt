-- ===== src/Reactor/Turn.antt =====
-- reactor.c, `reactor_thread`: one event of epoll, on a listening port or on one with data.
use embedded_device_forwarde.Prelude.{
  ℕ, ◌-◌, List, [], ◌∷◌, Option, none, some, take, length, if◌then◌else◌,
}
use embedded_device_forwarde.Prelude.Int.{ℤ, is_negative}
use embedded_device_forwarde.Prelude.Text.{Text}
use embedded_device_forwarde.Config.Types.{name_size, PortType, Port, Route}
use embedded_device_forwarde.EventQueue.Ring.{Event}
use embedded_device_forwarde.Ports.Table.{Slot, add_port, remove_fd}
use embedded_device_forwarde.Reactor.Route.{Handler, after_read, route_packet}

-- The table after the event, the messages for the queue, the fd that epoll watches from now on and
-- the one that was closed.
pub record Turn : Type 0 where
  pub table : List Slot
  pub pushed : List Event
  pub watched : Option ℤ
  pub closed : Option ℤ

-- The port of an accepted connection: `strncpy` and the NUL keep 31 bytes of the server's name.
abbrev pub client_port : PortType → Port → ℤ → Port
client_port kind server fd = record {
  name = take (name_size - 1) server.name;
  kind = kind;
  fd = fd;
}

abbrev pub idle : List Slot → Turn
idle table = record { table = table; pushed = []; watched = none; closed = none }

-- A listening port; `fd` is the result of `accept`.
unfoldable pub on_accept : PortType → Port → ℤ → List Slot → Turn
on_accept kind server fd table =
    let added = add_port (client_port kind server fd) table in
    if is_negative fd
    then idle table
    else record { table = added.0; pushed = []; watched = added.1; closed = none }

-- Any other port. No bytes stand for a result of `read` that is 0 or negative.
unfoldable pub on_read :
    (Text → Option Handler) → List Route → Port → List ℕ → List ℕ → List Slot → Turn
on_read handlers routes port stack [] table = record {
  table = remove_fd port.fd table;
  pushed = [];
  watched = none;
  closed = some port.fd;
}
on_read handlers routes port stack (b ∷ bytes) table = record {
  table = table;
  pushed =
      route_packet handlers routes port.name (after_read stack (b ∷ bytes)) (length (b ∷ bytes));
  watched = none;
  closed = none;
}

-- The event of a port of this type: `fd` is what `accept` returns if it is called, `bytes` what
-- `read` reads if it is called.
unfoldable pub turn :
    (Text → Option Handler) → List Route → PortType → Port → ℤ → List ℕ → List ℕ → List Slot → Turn
unfolding on_accept on_read
turn handlers routes PortType.tcp_server port fd stack bytes table =
    on_accept PortType.tcp_client port fd table
turn handlers routes PortType.ipc_server port fd stack bytes table =
    on_accept PortType.ipc_client port fd table
turn handlers routes _ port fd stack bytes table = on_read handlers routes port stack bytes table
