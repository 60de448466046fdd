-- ===== src/Config/Reload.antt =====
-- What a configuration is after it has been saved and loaded.
use mathlib.Core.List
use embedded_device_forwarde.Prelude.{false}
use embedded_device_forwarde.Prelude.Int.{pos, minus_one}
use embedded_device_forwarde.Json.Build.{IsInt}
use embedded_device_forwarde.Config.Types.{
  Conf, tty_conf, tcp_server_conf, tcp_client_conf, udp_conf, usb_conf, ipc_conf, PortDef, Config,
}
use embedded_device_forwarde.Config.Parse.{zero_conf}

-- The numbers of a port are `int`s; of the two enums, which are unsigned, they are at most the
-- greatest `int`.
unfoldable pub ConfInts : Conf → Type 0
ConfInts (tty_conf t) =
    IsInt t.baudrate
    × IsInt t.databits
    × IsInt t.stopbits
    × IsInt (pos t.parity)
    × IsInt (pos t.flow)
ConfInts (tcp_server_conf addr port backlog) = IsInt port × IsInt backlog
ConfInts (tcp_client_conf addr port) = IsInt port
ConfInts (udp_conf addr port) = IsInt port
ConfInts (usb_conf path) = Unit
ConfInts (ipc_conf path) = Unit

-- What is left of a port: the fd and `use_frame` are not saved, and of an IPC port only the name
-- is, so that it comes back as a TTY without settings.
unfoldable pub reload_conf : Conf → Conf
reload_conf (ipc_conf path) = zero_conf
reload_conf c = c

unfoldable pub reload_port : PortDef → PortDef
unfolding reload_conf
reload_port p = record {
  name = p.name;
  fd = minus_one;
  use_frame = false;
  conf = reload_conf p.conf;
}

unfoldable pub reload : Config → Config
unfolding reload_port
reload cfg = record {
  ports = List.map reload_port cfg.ports;
  plugins = cfg.plugins;
  routes = cfg.routes;
}
