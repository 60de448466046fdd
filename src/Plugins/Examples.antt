-- ===== src/Plugins/Examples.antt =====
-- The filter, loaded first, and a packet for its handlers.
use mathlib.Core.List
use embedded_device_forwarde.Prelude.{◌≡◌, refl, [], List}
use embedded_device_forwarde.Prelude.Text.{codes}
use embedded_device_forwarde.Plugins.Table.{HandlerEntry}
use embedded_device_forwarde.Config.Types.{Route}
use embedded_device_forwarde.Plugins.Filter.{
  usb_to_uart, uart_to_usb, filter_lem, plugin_init-Keeps,
}

abbrev nothing : List HandlerEntry
nothing = []

capitals : (usb_to_uart (codes "a1z") 2).0 ≡ codes "A1z"
unfolding usb_to_uart embedded_device_forwarde.Plugins.Filter.upper_loop
capitals = refl

abbrev shout : Route
shout = record {
  src = codes "usb";
  dst = codes "uart";
  plugin = codes "filter";
  handler = codes "filter.usb_to_uart";
}
