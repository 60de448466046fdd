-- ===== src/PortMap/Table.antt =====
-- `port_table`, which maps the ID of a fixed port to its device file and its fd.
use embedded_device_forwarde.Prelude.{List, [], ◌∷◌, Option, none, some, if◌then◌else◌, ◌||◌}
use embedded_device_forwarde.Prelude.Int.{ℤ, pos, minus_one, int_eq, is_negative}
use embedded_device_forwarde.Prelude.Text.{Text, codes, str_ieq}

-- PORT_USB1, PORT_UART1, PORT_UART2, PORT_NET0.
abbrev pub port_usb1 : ℤ
port_usb1 = pos 1

abbrev pub port_uart1 : ℤ
port_uart1 = pos 2

abbrev pub port_uart2 : ℤ
port_uart2 = pos 3

abbrev pub port_net0 : ℤ
port_net0 = pos 4

-- `port_entry_t`.
pub record Entry : Type 0 where
  pub port_id : ℤ
  pub dev_path : Text
  pub fd : ℤ

abbrev pub port_table : List Entry
port_table =
    record { port_id = port_usb1; dev_path = codes "/dev/ttyGS0"; fd = minus_one }
    ∷ record { port_id = port_uart1; dev_path = codes "/dev/ttyS1"; fd = minus_one }
    ∷ record { port_id = port_uart2; dev_path = codes "/dev/ttyS2"; fd = minus_one }
    ∷ record { port_id = port_net0; dev_path = codes "/dev/tap0"; fd = minus_one }
    ∷ []

unfoldable pub port_map_init : List Entry → List Entry
port_map_init [] = []
port_map_init (e ∷ es) = record e { fd = minus_one } ∷ port_map_init es

unfoldable pub port_str_to_id : Text → ℤ
port_str_to_id name =
    if str_ieq name (codes "USB1")
    then port_usb1
    else if str_ieq name (codes "UART1")
    then port_uart1
    else if str_ieq name (codes "UART2")
    then port_uart2
    else if str_ieq name (codes "NET0")
    then port_net0
    else minus_one

-- The result of `port_open_fd`, the table after it, and the device that was opened, if one was.
pub record Opened : Type 0 where
  pub fd : ℤ
  pub table : List Entry
  pub opening : Option Text

-- The entry of the port, where `open` gives the result of opening a device file.
unfoldable pub open_entry : (Text → ℤ) → Entry → List Entry → Opened
open_entry open_dev e es =
    if is_negative e.fd
    then (let fd = open_dev e.dev_path in
        if is_negative fd
        then record { fd = minus_one; table = e ∷ es; opening = some e.dev_path }
        else record { fd = fd; table = record e { fd = fd } ∷ es; opening = some e.dev_path })
    else record { fd = e.fd; table = e ∷ es; opening = none }

abbrev pub after : Entry → Opened → Opened
after e r = record { fd = r.fd; table = e ∷ r.table; opening = r.opening }

-- `port_open_fd(port)`.
unfoldable pub port_open_fd : (Text → ℤ) → ℤ → List Entry → Opened
unfolding open_entry
port_open_fd open_dev port [] = record { fd = minus_one; table = []; opening = none }
port_open_fd open_dev port (e ∷ es) =
    let rest = after e (port_open_fd open_dev port es) in
    if int_eq e.port_id port then open_entry open_dev e es else rest

unfoldable pub port_to_fd : ℤ → List Entry → ℤ
port_to_fd port [] = minus_one
port_to_fd port (e ∷ es) = if int_eq e.port_id port then e.fd else port_to_fd port es

unfoldable pub fd_to_port : ℤ → List Entry → ℤ
fd_to_port fd [] = minus_one
fd_to_port fd (e ∷ es) = if int_eq e.fd fd then e.port_id else fd_to_port fd es

-- `event_type_t`.
pub data EventType : Type 0 where
  usb_in uart_in cmd_from_sdk generic_in : EventType

unfoldable pub port_to_event_type : ℤ → EventType
port_to_event_type port =
    if int_eq port port_usb1
    then usb_in
    else if int_eq port port_uart1 || int_eq port port_uart2
    then uart_in
    else usb_in
