-- ===== src/Ports/Line.antt =====
-- port_manager.c: the serial line settings that `port_open_tty` makes, as the flags that it touches.
use embedded_device_forwarde.Prelude.{◌==◌, ℕ, ◌≡◌, Bool, true, false, if◌then◌else◌, arith, ◌&&◌}
use embedded_device_forwarde.Prelude.Int.{ℤ, pos, int_eq}
use embedded_device_forwarde.Config.Types.{TtyConf}

-- The line speed in baud, which stands for the constant of termios.
unfoldable pub baud_to_speed : ℤ → ℕ
baud_to_speed baud =
    if int_eq baud (pos 9600)
    then 9600
    else if int_eq baud (pos 19200)
    then 19200
    else if int_eq baud (pos 38400)
    then 38400
    else if int_eq baud (pos 57600)
    then 57600
    else if int_eq baud (pos 115200)
    then 115200
    else if int_eq baud (pos 230400)
    then 230400
    else 115200

-- Flags of `struct termios`: `cooked` says that some local flag for echo, lines or signals is set,
-- `translates` that some input flag for XON/XOFF or newlines is; `seven_bits` is CS7, else CS8.
pub record Termios : Type 0 where
  pub cooked : Bool
  pub translates : Bool
  pub opost : Bool
  pub ispeed : ℕ
  pub ospeed : ℕ
  pub seven_bits : Bool
  pub cstopb : Bool
  pub parenb : Bool
  pub parodd : Bool
  pub crtscts : Bool
  pub clocal : Bool
  pub cread : Bool
  pub vmin : ℕ
  pub vtime : ℕ

-- Steps 1 and 2, after `cfmakeraw`.
abbrev pub clear_flags : Termios → Termios
clear_flags t = record t { cooked = false; translates = false; opost = false }

-- Step 3, by the results of the two calls; the second one is made only if the first one succeeds.
abbrev pub set_speed : ℤ → ℤ → ℕ → Termios → Termios
set_speed input output speed t =
    if int_eq input (pos 0)
    then (if int_eq output (pos 0)
        then record t { ispeed = speed; ospeed = speed }
        else record t { ispeed = speed })
    else t

-- Step 4.
abbrev pub set_parity : ℕ → Termios → Termios
set_parity parity t =
    if parity == 0
    then record t { parenb = false }
    else if parity == 1
    then record t { parenb = true; parodd = true }
    else record t { parenb = true; parodd = false }

abbrev pub set_frame : TtyConf → Termios → Termios
set_frame c t =
    set_parity c.parity
      (record t { seven_bits = int_eq c.databits (pos 7); cstopb = int_eq c.stopbits (pos 2) })

-- Steps 5 to 7.
abbrev pub set_control : TtyConf → Termios → Termios
set_control c t = record t {
  crtscts = c.flow == 1;
  clocal = true;
  cread = true;
  vmin = 1;
  vtime = 0;
}

-- What `tcsetattr` is given, for what `tcgetattr` and `cfmakeraw` made.
unfoldable pub configure : TtyConf → ℤ → ℤ → Termios → Termios
unfolding baud_to_speed
configure c input output raw =
    set_control c
      (set_frame c (set_speed input output (baud_to_speed c.baudrate) (clear_flags raw)))

-- Where the speeds are accepted and a parity is set, the settings depend on the configuration
-- alone, not on the state in which the line was found; without parity only the flag for odd parity,
-- which has no effect then, is left as it was.
pub configure_lem :
    (c : TtyConf) (before other : Termios)
    → (let t = configure c (pos 0) (pos 0) before in
        let t' = configure c (pos 0) (pos 0) other in
        record t { parodd = t.parodd && t.parenb } ≡ record t' { parodd = t'.parodd && t'.parenb })
unfolding configure
configure_lem c before other = ground arith
