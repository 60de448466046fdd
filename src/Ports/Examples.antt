-- ===== src/Ports/Examples.antt =====
-- A server with two clients, of which the first one's writes fail, and a serial port; and ports opened and closed.
use embedded_device_forwarde.Prelude.{
  ◌++◌, none, false, some, All, length, ℕ, ◌≡◌, refl, List, [], ◌∷◌, if◌then◌else◌, ◌==◌,
}
use embedded_device_forwarde.Prelude.Int.{ℤ, pos, minus_one}
use embedded_device_forwarde.Prelude.Text.{codes, str_eq}
use embedded_device_forwarde.Ports.Open.{Calls, ports_open_all, ports_close_all}
use embedded_device_forwarde.Ports.Lifetime.{
  Unopened, all_left_open, ports_close_all-ports_open_all,
}
use embedded_device_forwarde.Config.Types.{PortDef, usb_conf, tcp_server_conf, PortType, Port}
use embedded_device_forwarde.EventQueue.Ring.{Event}
use embedded_device_forwarde.Ports.Table.{Slot, port_find, pick, entry, no_slot}
use embedded_device_forwarde.Ports.Send.{
  Net, broadcast, port_send, broadcast_loop, client_fd, send_to,
}
use embedded_device_forwarde.Ports.Broadcast.{each, Clients, failures, broadcast-writes}
use embedded_device_forwarde.Ports.Router.{handle, Delivered, handle-Delivered}

abbrev host : PortType → Port
host kind = record { name = codes "host"; kind = kind; fd = pos 5 }

abbrev ports : List Slot
ports =
    entry (host PortType.tcp_server)
    ∷ entry (record { name = codes "host"; kind = PortType.tcp_client; fd = pos 6 })
    ∷ no_slot
    ∷ entry (record { name = codes "host"; kind = PortType.tcp_client; fd = pos 7 })
    ∷ entry (record { name = codes "uart"; kind = PortType.tty; fd = pos 8 })
    ∷ []

abbrev net : Net
net = record { writes = []; result = λ n. if n == 0 then minus_one else pos 2 }

abbrev hi : List ℕ
hi = codes "hi"

abbrev message : Event
message = record { dst = codes "host"; len = 2; bytes = hi }

one_of_two : (port_send (host PortType.tcp_server) hi ports net).0 ≡ pos 2
unfolding port_send send_to broadcast broadcast_loop client_fd str_eq
one_of_two = refl

first_client : (handle message ports net).writes ≡ (pos 6, hi) ∷ []
unfolding handle port_find pick port_send send_to str_eq
first_client = refl

broadcast-writes_example :
    let after = broadcast (codes "host") hi ports net in
    (fds : List ℤ) × Clients (codes "host") ports fds
    × (after.1.writes ≡ [] ++ each hi fds)
    × (after.0 ≡ (
        if length fds == 0
        then pos 0
        else if failures net.result 0 fds == length fds
        then minus_one
        else pos 2))
broadcast-writes_example = broadcast-writes (codes "host") hi ports net

handle-Delivered_example : Delivered message ports net (handle message ports net)
handle-Delivered_example = handle-Delivered message ports net

-- A serial port that opens, and a server whose address is taken.
abbrev setup : List PortDef
setup =
    record {
      name = codes "uart";
      fd = minus_one;
      use_frame = false;
      conf = usb_conf (codes "/dev/u");
    }
    ∷ record {
      name = codes "net";
      fd = minus_one;
      use_frame = false;
      conf = tcp_server_conf (codes "0.0.0.0") (pos 80) (pos 5);
    }
    ∷ []

abbrev sys : ℕ → Calls
sys i = record {
  open_dev = pos 8;
  tcgetattr = pos 0;
  tcsetattr = pos 0;
  socket = pos 9;
  connect = pos 0;
  bind = minus_one;
  listen = pos 0;
}

one_opened : all_left_open (ports_open_all sys 0 setup).0 ≡ some (pos 8) ∷ none ∷ []
unfolding ports_open_all
one_opened = refl

ports_close_all-ports_open_all_example :
    let opened = ports_open_all sys 0 setup in
    let closed = ports_close_all opened.1 in
    (closed.1 ≡ all_left_open opened.0) × All Unopened closed.0
ports_close_all-ports_open_all_example =
    ports_close_all-ports_open_all sys 0 setup (refl, (refl, tt))
