-- ===== src/Ports/Open.antt =====
-- port_manager.c: the opening and closing of ports, over the results of the system calls.
use embedded_device_forwarde.Prelude.{ℕ, suc, List, [], ◌∷◌, Option, none, some, if◌then◌else◌, not}
use embedded_device_forwarde.Prelude.Int.{ℤ, pos, minus_one, int_eq, is_negative}
use embedded_device_forwarde.Config.Types.{PortDef, PortType, kind_of}

-- What the calls return that are made for one port.
pub record Calls : Type 0 where
  pub open_dev : ℤ
  pub tcgetattr : ℤ
  pub tcsetattr : ℤ
  pub socket : ℤ
  pub connect : ℤ
  pub bind : ℤ
  pub listen : ℤ

-- The result, the descriptor that was obtained and the one that was closed again.
pub record Opening : Type 0 where
  pub fd : ℤ
  pub obtained : Option ℤ
  pub closed : Option ℤ

abbrev pub nothing : Opening
nothing = record { fd = minus_one; obtained = none; closed = none }

abbrev pub given_up : ℤ → Opening
given_up fd = record { fd = minus_one; obtained = some fd; closed = some fd }

abbrev pub kept : ℤ → Opening
kept fd = record { fd = fd; obtained = some fd; closed = none }

-- `port_open_tty`; what it sets is in Line.
unfoldable pub port_open_tty : Calls → Opening
port_open_tty c =
    if is_negative c.open_dev
    then nothing
    else if not (int_eq c.tcgetattr (pos 0))
    then given_up c.open_dev
    else if not (int_eq c.tcsetattr (pos 0))
    then given_up c.open_dev
    else kept c.open_dev

unfoldable pub port_open_tcp_server : Calls → Opening
port_open_tcp_server c =
    if is_negative c.socket
    then nothing
    else if is_negative c.bind
    then given_up c.socket
    else if is_negative c.listen
    then given_up c.socket
    else kept c.socket

-- They do not read what `connect` and `bind` return.
unfoldable pub port_open_tcp_client : Calls → Opening
port_open_tcp_client c = if is_negative c.socket then nothing else kept c.socket

unfoldable pub port_open_udp : Calls → Opening
port_open_udp c = if is_negative c.socket then nothing else kept c.socket

-- The path of a USB port stands where that of a TTY stands in the union.
unfoldable pub port_open_usb : Calls → Opening
unfolding port_open_tty
port_open_usb c = port_open_tty c

-- It also stores the fd and the type, which `port_open_single` does again and which the port has.
unfoldable pub port_open_ipc_server : Calls → Opening
port_open_ipc_server c =
    if is_negative c.socket
    then nothing
    else if is_negative c.bind
    then given_up c.socket
    else if is_negative c.listen
    then given_up c.socket
    else kept c.socket

-- The switch of `port_open_single`.
unfoldable pub open_kind : PortType → Calls → Opening
unfolding port_open_tty port_open_tcp_server port_open_tcp_client port_open_udp port_open_usb
    port_open_ipc_server
open_kind PortType.tty c = port_open_tty c
open_kind PortType.tcp_server c = port_open_tcp_server c
open_kind PortType.tcp_client c = port_open_tcp_client c
open_kind PortType.udp c = port_open_udp c
open_kind PortType.usb c = port_open_usb c
open_kind PortType.ipc_server c = port_open_ipc_server c
open_kind PortType.ipc_client c = nothing

-- `port_open_single`: the port after it, with the descriptors.
unfoldable pub port_open_single : Calls → PortDef → Opening × PortDef
unfolding open_kind
port_open_single c p =
    let o = open_kind (kind_of p.conf) c in
    (o, if is_negative o.fd then p else record p { fd = o.fd })

-- `ports_open_all`; the calls for the i-th port are `sys i`.
unfoldable pub ports_open_all : (ℕ → Calls) → ℕ → List PortDef → List Opening × List PortDef
unfolding port_open_single
ports_open_all sys i [] = ([], [])
ports_open_all sys i (p ∷ ps) =
    let r = port_open_single (sys i) p in
    let rest = ports_open_all sys (suc i) ps in (r.0 ∷ rest.0, r.1 ∷ rest.1)

-- `port_close_single`: the port after it, and the descriptor that was closed.
unfoldable pub port_close_single : PortDef → PortDef × Option ℤ
port_close_single p =
    if is_negative p.fd then (p, none) else (record p { fd = minus_one }, some p.fd)

-- `ports_close_all`.
unfoldable pub ports_close_all : List PortDef → List PortDef × List (Option ℤ)
unfolding port_close_single
ports_close_all [] = ([], [])
ports_close_all (p ∷ ps) =
    let r = port_close_single p in let rest = ports_close_all ps in (r.0 ∷ rest.0, r.1 ∷ rest.1)
