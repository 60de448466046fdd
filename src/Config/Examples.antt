-- ===== src/Config/Examples.antt =====
-- Two routes from one port, one from another, and room for one; and a configuration with a serial
-- port and an IPC port, saved and loaded.
use embedded_device_forwarde.Prelude.{◌≡◌, refl, true, false, some, none, All, arith, List, [], ◌∷◌}
use embedded_device_forwarde.Prelude.Text.{Text, codes, str_eq}
use embedded_device_forwarde.Prelude.Int.{pos}
use embedded_device_forwarde.Json.Postfix.{
  postfix, postfix_builder, postfix-BuildLaws, parse_doc-print_doc,
}
use embedded_device_forwarde.Config.Dump.{config_print}
use embedded_device_forwarde.Config.Listing.{read_listing, read_listing-config_print}
use embedded_device_forwarde.Config.Types.{Route, PortDef, Config, tty_conf, ipc_conf, clear_config}
use embedded_device_forwarde.Config.Bounds.{IsValid, ConfFits, load_config-IsValid}
use embedded_device_forwarde.Config.Parse.{load_config}
use embedded_device_forwarde.Config.Print.{config_node, save_config}
use embedded_device_forwarde.Config.Reload.{ConfInts, reload}
use embedded_device_forwarde.Config.RoundTrip.{load_config-save_config}
use embedded_device_forwarde.Config.Lookup.{find_from, find_routes_by_src}

abbrev to : Text → Text → Route
to src dst = record { src = src; dst = dst; plugin = []; handler = [] }

abbrev table : List Route
table =
    to (codes "uart") (codes "host")
    ∷ to (codes "usb") (codes "host")
    ∷ to (codes "uart") (codes "log")
    ∷ []

first_only : find_routes_by_src (codes "uart") 1 table ≡ to (codes "uart") (codes "host") ∷ []
unfolding find_routes_by_src find_from str_eq
first_only = refl

abbrev serial : PortDef
serial = record {
  name = codes "uart";
  fd = pos 4;
  use_frame = true;
  conf = tty_conf (record {
    path = codes "/dev/ttyS1";
    baudrate = pos 115200;
    databits = pos 8;
    stopbits = pos 1;
    parity = 0;
    flow = 0;
  });
}

abbrev host : PortDef
host = record {
  name = codes "host";
  fd = pos 5;
  use_frame = false;
  conf = ipc_conf (codes "/run/h");
}

abbrev setup : Config
setup = record { ports = serial ∷ host ∷ []; plugins = []; routes = table }

setup-IsValid : IsValid setup
unfolding ConfFits
setup-IsValid = record {
  port_room = omega arith;
  plugin_room = omega arith;
  route_room = omega arith;
  ports_fit = omega arith;
  plugins_fit = tt;
  routes_fit = omega arith;
}

setup-ConfInts : All (λ p. ConfInts p.conf) setup.ports
unfolding ConfInts
setup-ConfInts = omega arith

load_config-save_config_example :
    load_config postfix (some (save_config postfix postfix_builder setup)) clear_config
    ≡ (pos 0, reload setup)
unfolding save_config embedded_device_forwarde.Json.Postfix.print_doc
load_config-save_config_example =
    load_config-save_config postfix postfix_builder postfix-BuildLaws setup clear_config
      setup-IsValid setup-ConfInts (parse_doc-print_doc (config_node postfix postfix_builder setup))

load_config-IsValid_example : IsValid (load_config postfix none setup).1
load_config-IsValid_example = load_config-IsValid postfix none setup

read_listing-config_print_example : read_listing (config_print setup) ≡ setup
read_listing-config_print_example = read_listing-config_print setup
