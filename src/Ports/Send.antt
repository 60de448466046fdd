-- ===== src/Ports/Send.antt =====
-- `port_send` of port_manager.c and the broadcast to the clients of a TCP server.
use embedded_device_forwarde.Prelude.{
  ℕ, ◌+◌, List, [], ◌∷◌, ◌++◌, Option, none, some, if◌then◌else◌, length, ◌==◌, ◌&&◌,
}
use embedded_device_forwarde.Prelude.Int.{ℤ, pos, minus_one, is_negative}
use embedded_device_forwarde.Prelude.Text.{Text, str_eq}
use embedded_device_forwarde.Config.Types.{PortType, Port, is_tcp_client}
use embedded_device_forwarde.Ports.Table.{Slot}

-- The calls of `write` so far, each with its fd and data, and the results of all calls.
pub record Net : Type 0 where
  pub writes : List (ℤ × List ℕ)
  pub result : ℕ → ℤ

abbrev pub write : ℤ → List ℕ → Net → ℤ × Net
write fd bytes net =
    (net.result (length net.writes), record net { writes = net.writes ++ (fd, bytes) ∷ [] })

-- The two counters of the broadcast.
pub record Tally : Type 0 where
  pub sent_to : ℕ
  pub failed : ℕ

abbrev pub count : ℤ → Tally → Tally
count n t =
    if is_negative n
    then record t { failed = t.failed + 1 }
    else record t { sent_to = t.sent_to + 1 }

-- The tests on a slot: the fd of a connected client of that server.
unfoldable pub client_fd : Text → Slot → Option ℤ
client_fd server s =
    if s.used
    then elim s.port [
      | none ↦ none
      | some p ↦ if is_tcp_client p.kind && str_eq p.name server then some p.fd else none
    ]
    else none

unfoldable pub broadcast_loop : Text → List ℕ → List Slot → Tally → Net → Tally × Net
unfolding client_fd
broadcast_loop server bytes [] t net = (t, net)
broadcast_loop server bytes (s ∷ ss) t net = elim (client_fd server s) [
  | none ↦ broadcast_loop server bytes ss t net
  | some fd ↦ let w = write fd bytes net in broadcast_loop server bytes ss (count w.0 t) w.1
]

-- `port_send_tcp_server_broadcast(server, data, len)`, where `len` is the length of the data.
abbrev pub verdict : ℕ → Tally → ℤ
verdict len t =
    if t.sent_to == 0 && t.failed == 0 then pos 0 else if t.sent_to == 0 then minus_one else pos len

unfoldable pub broadcast : Text → List ℕ → List Slot → Net → ℤ × Net
unfolding broadcast_loop
broadcast server bytes ss net =
    let r = broadcast_loop server bytes ss (record { sent_to = 0; failed = 0 }) net in
    (verdict (length bytes) r.0, r.1)

-- The switch of `port_send`. The IPC server's case has no `break`: its result is that of UDP.
unfoldable pub send_to : PortType → Port → List ℕ → List Slot → Net → ℤ × Net
unfolding broadcast
send_to PortType.tty p bytes ss net = write p.fd bytes net
send_to PortType.usb p bytes ss net = write p.fd bytes net
send_to PortType.tcp_client p bytes ss net = write p.fd bytes net
send_to PortType.ipc_client p bytes ss net = write p.fd bytes net
send_to PortType.tcp_server p bytes ss net = broadcast p.name bytes ss net
send_to PortType.ipc_server p bytes ss net = (pos 0, (write p.fd bytes net).1)
send_to PortType.udp p bytes ss net = (pos 0, net)

-- `port_send(p, data, len)`, for a port that is not NULL.
unfoldable pub port_send : Port → List ℕ → List Slot → Net → ℤ × Net
unfolding send_to
port_send p bytes ss net =
    if is_negative p.fd then (minus_one, net) else send_to p.kind p bytes ss net
