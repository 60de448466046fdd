-- ===== src/Ports/Router.antt =====
-- `router_core_handle` of router_core.c: a message that came off the queue is sent to its port.
use embedded_device_forwarde.Prelude.{
  ℕ, ◌≡◌, refl, List, [], ◌∷◌, ◌++◌, false, Option, none, some, take, ◌⊎◌, inl, inr, if◌then◌else◌,
  Bool-cases, subst, sym, ap,
}
use embedded_device_forwarde.Prelude.Int.{minus_one, is_negative}
use embedded_device_forwarde.Config.Types.{PortType, Port, is_server}
use embedded_device_forwarde.EventQueue.Ring.{Event}
use embedded_device_forwarde.Ports.Table.{Slot, port_find}
use embedded_device_forwarde.Ports.Send.{Net, send_to, port_send}
use embedded_device_forwarde.Ports.Find.{Holds, Found, port_find_lem}

-- `router_core_handle(msg)`, for a message that is not NULL. Its branches on the result of
-- `port_send` only log.
unfoldable pub handle : Event → List Slot → Net → Net
handle msg ss net = elim (port_find msg.dst ss) [
  | none ↦ net
  | some p ↦ (port_send p (take msg.len msg.bytes) ss net).1
]

-- Nothing is written, or the message once, to a port of its name that is not a server.
pub Delivered : Event → List Slot → Net → Net → Type 0
Delivered msg ss before after =
    (after ≡ before)
    ⊎ ((p : Port) × Holds p ss
        × (p.name ≡ msg.dst)
        × (is_server p.kind ≡ false)
        × (after.writes ≡ before.writes ++ (p.fd, take msg.len msg.bytes) ∷ []))

send_to-writes :
    (k : PortType) (p : Port) (bytes : List ℕ) (ss : List Slot) (net : Net)
    → is_server k ≡ false
    → ((send_to k p bytes ss net).1 ≡ net)
      ⊎ ((send_to k p bytes ss net).1.writes ≡ net.writes ++ (p.fd, bytes) ∷ [])
unfolding send_to
send_to-writes PortType.tty p bytes ss net e = inr refl
send_to-writes PortType.usb p bytes ss net e = inr refl
send_to-writes PortType.tcp_client p bytes ss net e = inr refl
send_to-writes PortType.ipc_client p bytes ss net e = inr refl
send_to-writes PortType.tcp_server p bytes ss net e = absurd (cc e)
send_to-writes PortType.ipc_server p bytes ss net e = absurd (cc e)
send_to-writes PortType.udp p bytes ss net e = inl refl

pub port_send-writes :
    (p : Port) (bytes : List ℕ) (ss : List Slot) (net : Net)
    → is_server p.kind ≡ false
    → ((port_send p bytes ss net).1 ≡ net)
      ⊎ ((port_send p bytes ss net).1.writes ≡ net.writes ++ (p.fd, bytes) ∷ [])
unfolding port_send
port_send-writes p bytes ss net e = elim (Bool-cases (is_negative p.fd)) [
  | inl b ↦ inl (ap (λ t. (if t then (minus_one, net) else send_to p.kind p bytes ss net).1) b)
  | inr b ↦
      subst
        (λ t.
          ((if t then (minus_one, net) else send_to p.kind p bytes ss net).1 ≡ net)
          ⊎ ((if t then (minus_one, net) else send_to p.kind p bytes ss net).1.writes
              ≡ net.writes ++ (p.fd, bytes) ∷ []))
        (sym b) (send_to-writes p.kind p bytes ss net e)
]

Found-Delivered :
    (msg : Event) (ss : List Slot) (net : Net) (o : Option Port)
    → Found msg.dst ss o
    → Delivered msg ss net
        (elim o [ none ↦ net | some p ↦ (port_send p (take msg.len msg.bytes) ss net).1 ])
unfolding Found Delivered
Found-Delivered msg ss net none f = inl refl
Found-Delivered msg ss net (some p) f =
    elim (port_send-writes p (take msg.len msg.bytes) ss net f.2) [
      | inl e ↦ inl e
      | inr e ↦ inr (p, f.0, f.1, f.2, e)
    ]

-- Whatever a message and the table, handling it either writes nothing or makes one write, of the
-- message's data, to a port of the table with the message's destination as its name that is not a
-- server. This is so for the name of a TCP server too: a message to it goes to one of its clients at
-- most, where the comment above port_send_tcp_server_broadcast and doc/RPD.md describe a broadcast.
pub handle-Delivered :
    (msg : Event) (ss : List Slot) (net : Net) → Delivered msg ss net (handle msg ss net)
unfolding handle
handle-Delivered msg ss net =
    Found-Delivered msg ss net (port_find msg.dst ss) (port_find_lem msg.dst ss)
