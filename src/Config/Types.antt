-- ===== src/Config/Types.antt =====
-- config_store.h: ports, plugins and routes, and the tables that hold them. A table with its count
-- is the list of its entries in use. The union `cfg` with its tag `base.type` is a data type, and
-- an `int` keeps the value that cJSON
-- read.
use embedded_device_forwarde.Prelude.{ℕ, List, [], Bool, true, false}
use embedded_device_forwarde.Prelude.Int.{ℤ}
use embedded_device_forwarde.Prelude.Text.{Text}

abbrev pub max_ports : ℕ
max_ports = 32

abbrev pub max_plugins : ℕ
max_plugins = 32

abbrev pub max_routes : ℕ
max_routes = 64

-- The sizes of the arrays: `name`, `src`, `dst`, `plugin`; the addresses and `handler`; the paths
-- of ports; the path of a plugin.
abbrev pub name_size : ℕ
name_size = 32

abbrev pub addr_size : ℕ
addr_size = 64

abbrev pub path_size : ℕ
path_size = 128

abbrev pub plugin_path_size : ℕ
plugin_path_size = 256

-- `port_type_t`.
pub data PortType : Type 0 where
  tty tcp_server tcp_client udp usb ipc_server ipc_client : PortType

-- The two types that only accept connections.
abbrev pub is_server : PortType → Bool
is_server PortType.tcp_server = true
is_server PortType.ipc_server = true
is_server _ = false

abbrev pub is_tcp_client : PortType → Bool
is_tcp_client PortType.tcp_client = true
is_tcp_client _ = false

-- The two types of a connection that was accepted.
abbrev pub is_client : PortType → Bool
is_client PortType.tcp_client = true
is_client PortType.ipc_client = true
is_client _ = false

-- `port_base_t`, the part of `port_def_t` that routing reads.
pub record Port : Type 0 where
  pub name : Text
  pub kind : PortType
  pub fd : ℤ

-- `port_tty_conf_t`. Its `parity_t` and `flow_t` are enums without negative values, whose type is
-- `unsigned int`.
pub record TtyConf : Type 0 where
  pub path : Text
  pub baudrate : ℤ
  pub databits : ℤ
  pub stopbits : ℤ
  pub parity : ℕ
  pub flow : ℕ

-- The union `cfg`: a TCP server has an address, a port and a backlog, a TCP client and UDP an
-- address and a port, USB and IPC a path.
pub data Conf : Type 0 where
  tty_conf : TtyConf → Conf
  tcp_server_conf : Text → ℤ → ℤ → Conf
  tcp_client_conf : Text → ℤ → Conf
  udp_conf : Text → ℤ → Conf
  usb_conf : Text → Conf
  ipc_conf : Text → Conf

-- `port_def_t` of the configuration.
pub record PortDef : Type 0 where
  pub name : Text
  pub fd : ℤ
  pub use_frame : Bool
  pub conf : Conf

abbrev pub kind_of : Conf → PortType
kind_of (tty_conf t) = PortType.tty
kind_of (tcp_server_conf addr port backlog) = PortType.tcp_server
kind_of (tcp_client_conf addr port) = PortType.tcp_client
kind_of (udp_conf addr port) = PortType.udp
kind_of (usb_conf path) = PortType.usb
kind_of (ipc_conf path) = PortType.ipc_server

-- The `base` of a configured port.
abbrev pub base : PortDef → Port
base p = record { name = p.name; kind = kind_of p.conf; fd = p.fd }

-- `plugin_def_t`.
pub record PluginDef : Type 0 where
  pub name : Text
  pub path : Text

-- `route_def_t`.
pub record Route : Type 0 where
  pub src : Text
  pub dst : Text
  pub plugin : Text
  pub handler : Text

-- `config_t`.
pub record Config : Type 0 where
  pub ports : List PortDef
  pub plugins : List PluginDef
  pub routes : List Route

-- `clear_config`.
abbrev pub clear_config : Config
clear_config = record { ports = []; plugins = []; routes = [] }
