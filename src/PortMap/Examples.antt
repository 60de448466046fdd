-- ===== src/PortMap/Examples.antt =====
-- The serial port UART1 opened twice.
use embedded_device_forwarde.Prelude.{false, ◌≡◌, refl}
use embedded_device_forwarde.Prelude.Int.{ℤ, pos, minus_one, is_negative}
use embedded_device_forwarde.Prelude.Text.{Text, codes, str_ieq}
use embedded_device_forwarde.PortMap.Table.{port_table, port_uart1, port_str_to_id, port_open_fd}
use embedded_device_forwarde.PortMap.Open.{Settled, port_open_fd-Settled}

abbrev works : Text → ℤ
works path = pos 9

abbrev broken : Text → ℤ
broken path = minus_one

any_case : port_str_to_id (codes "uart1") ≡ port_uart1
unfolding port_str_to_id str_ieq
any_case = refl

opened : is_negative (port_open_fd works port_uart1 port_table).fd ≡ false
unfolding port_open_fd
opened = refl

port_open_fd-Settled_example :
    Settled broken port_uart1
      (port_open_fd works port_uart1 port_table).fd
      (port_open_fd works port_uart1 port_table).table
port_open_fd-Settled_example = port_open_fd-Settled works broken port_uart1 port_table opened
