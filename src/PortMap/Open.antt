-- ===== src/PortMap/Open.antt =====
-- Opening a fixed port and finding it again.
use embedded_device_forwarde.Prelude.{◌≡◌, List, [], ◌∷◌, true, false, none, arith, All}
use embedded_device_forwarde.Prelude.Int.{ℤ, int_eq, is_negative, int_eq_iff, int_eq_refl}
use embedded_device_forwarde.Prelude.Text.{Text}
use embedded_device_forwarde.PortMap.Table.{Entry, open_entry, port_open_fd, port_to_fd, fd_to_port}

-- What holds after a call that returned this fd for the port: the table says so, and the next call
-- returns it at once, opens nothing and changes nothing.
abbrev pub Settled : (Text → ℤ) → ℤ → ℤ → List Entry → Type 0
Settled open_dev port fd t =
    (port_to_fd port t ≡ fd)
    × (port_open_fd open_dev port t ≡ record { fd = fd; table = t; opening = none })

open_entry-Settled :
    (open_dev again : Text → ℤ) (port : ℤ) (e : Entry) (es : List Entry)
    → int_eq e.port_id port ≡ true
    → is_negative (open_entry open_dev e es).fd ≡ false
    → Settled again port (open_entry open_dev e es).fd (open_entry open_dev e es).table
unfolding open_entry port_to_fd port_open_fd
open_entry-Settled open_dev again port e es h n = ground arith

-- A call that succeeds settles the port: the device is opened at most once, however the later
-- attempts to open it would end.
pub port_open_fd-Settled :
    (open_dev again : Text → ℤ) (port : ℤ) (t : List Entry)
    → is_negative (port_open_fd open_dev port t).fd ≡ false
    → Settled again port (port_open_fd open_dev port t).fd (port_open_fd open_dev port t).table
unfolding port_open_fd port_to_fd
port_open_fd-Settled open_dev again port [] n = absurd (cc n)
port_open_fd-Settled open_dev again port (e ∷ es) n =
    ground (arith, port_open_fd-Settled open_dev again port es)

-- No other port holds this fd.
unfoldable pub Unshared : ℤ → ℤ → List Entry → Type 0
Unshared port fd = All (λ e. int_eq e.fd fd ≡ true → int_eq e.port_id port ≡ true)

-- The fd of a port that was opened leads back to the port, if no other port of the table holds it,
-- as the system sees to for an fd that it has just given out.
pub fd_to_port-port_open_fd :
    (open_dev : Text → ℤ) (port : ℤ) (t : List Entry)
    → is_negative (port_open_fd open_dev port t).fd ≡ false
    → Unshared port (port_open_fd open_dev port t).fd t
    → fd_to_port (port_open_fd open_dev port t).fd (port_open_fd open_dev port t).table ≡ port
unfolding port_open_fd fd_to_port Unshared
fd_to_port-port_open_fd open_dev port [] n u = absurd (cc n)
fd_to_port-port_open_fd open_dev port (e ∷ es) n u = ground (
  arith,
  fd_to_port-port_open_fd open_dev port es,
  int_eq_iff e.port_id port,
  int_eq_refl e.fd,
  int_eq_refl (open_dev e.dev_path),
)
