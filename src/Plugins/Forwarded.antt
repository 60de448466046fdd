-- ===== src/Plugins/Forwarded.antt =====
-- plugins/filter.c in the reactor: the messages that its handlers make of a packet.
use mathlib.Core.List
use embedded_device_forwarde.Prelude.{◌+◌, ◌<◌, ◌≡◌, List, none, length}
use embedded_device_forwarde.Prelude.Text.{Text, codes}
use embedded_device_forwarde.Config.Types.{Route}
use embedded_device_forwarde.Plugins.Table.{HandlerEntry, max_handlers, get_handler}

-- There is room for the filter's two handlers, and no plugin loaded before has their names.
pub record HasRoom (table : List HandlerEntry) : Type 0 where
  pub room : length table + 1 < max_handlers
  pub no_usb_to_uart : get_handler table (codes "filter.usb_to_uart") ≡ none
  pub no_uart_to_usb : get_handler table (codes "filter.uart_to_usb") ≡ none
