-- ===== src/Config/Parse.antt =====
-- config_store.c: `load_config`, over the values that cJSON makes of the file.
use embedded_device_forwarde.Prelude.{
  ◌^◌, ◌%◌, ℕ, ◌+◌, ◌-◌, List, [], ◌∷◌, Bool, false, Option, none, some, take, ltb, if◌then◌else◌,
}
use embedded_device_forwarde.Prelude.Fallible.{◌>>=◌}
use embedded_device_forwarde.Prelude.Int.{negsuc, ℤ, pos, minus_one}
use embedded_device_forwarde.Prelude.Text.{Text, codes, str_eq}
use embedded_device_forwarde.Json.{Cjson}
use embedded_device_forwarde.Config.Types.{
  Conf, tty_conf, tcp_server_conf, tcp_client_conf, udp_conf, usb_conf, ipc_conf, PortDef,
  PluginDef, Route, Config, clear_config, max_ports, max_plugins, max_routes, name_size, addr_size,
  path_size, plugin_path_size,
}

abbrev pub text_or_empty : Option Text → Text
text_or_empty none = []
text_or_empty (some s) = s

abbrev pub int_or_zero : Option ℤ → ℤ
int_or_zero none = pos 0
int_or_zero (some n) = n

abbrev pub is_true : Option Bool → Bool
is_true none = false
is_true (some b) = b

-- An `int` that is assigned to an enum whose type is `unsigned int`.
abbrev pub as_enum : ℤ → ℕ
as_enum (pos n) = n % 2 ^ 32
as_enum (negsuc n) = 2 ^ 32 - 1 - n % 2 ^ 32

-- The union of a port of `clear_config`, whose type is 0.
abbrev pub zero_conf : Conf
zero_conf = tty_conf (record {
  path = [];
  baudrate = pos 0;
  databits = pos 0;
  stopbits = pos 0;
  parity = 0;
  flow = 0;
})

module _ (cjson : Cjson) where
  open cjson use {Node, parse, item, string_value, int_value, bool_value, elements}

  -- `GET_STR(obj, key, dst)`, for a `dst` of this size that `clear_config` has set to zero:
  -- `strncpy` leaves the last byte as it is. There is no item in an object that is NULL.
  unfoldable pub get_str : Option Node → Text → ℕ → Text
  get_str obj key size = take (size - 1) (text_or_empty (obj >>= λ o. item o key >>= string_value))

  -- `GET_INT(obj, key, dst)`.
  unfoldable pub get_int : Option Node → Text → ℤ
  get_int obj key = int_or_zero (obj >>= λ o. item o key >>= int_value)

  -- The fields of a `tty` object; the port keeps its union of zeros if there is none.
  unfoldable pub parse_tty : Option Node → Conf
  unfolding get_str get_int
  parse_tty none = zero_conf
  parse_tty (some tty) = tty_conf (record {
    path = get_str (some tty) (codes "path") path_size;
    baudrate = get_int (some tty) (codes "baudrate");
    databits = get_int (some tty) (codes "databits");
    stopbits = get_int (some tty) (codes "stopbits");
    parity = as_enum (get_int (some tty) (codes "parity"));
    flow = as_enum (get_int (some tty) (codes "flow"));
  })

  -- The branches on `type_str`. An unknown type leaves the type 0, which is that of a TTY.
  unfoldable pub parse_conf : Node → Text → Conf
  unfolding get_str get_int parse_tty
  parse_conf it type_str =
      if str_eq type_str (codes "tty")
      then parse_tty (item it (codes "tty"))
      else if str_eq type_str (codes "tcp_server")
      then (let ts = item it (codes "tcp_server") in
          tcp_server_conf (get_str ts (codes "bind") addr_size) (get_int ts (codes "port"))
            (get_int ts (codes "backlog")))
      else if str_eq type_str (codes "tcp_client")
      then (let tc = item it (codes "tcp_client") in
          tcp_client_conf (get_str tc (codes "addr") addr_size) (get_int tc (codes "port")))
      else if str_eq type_str (codes "udp")
      then (let u = item it (codes "udp") in
          udp_conf (get_str u (codes "bind") addr_size) (get_int u (codes "port")))
      else if str_eq type_str (codes "usb")
      then usb_conf (get_str (item it (codes "usb")) (codes "path") path_size)
      else if str_eq type_str (codes "ipc")
      then ipc_conf (get_str (item it (codes "ipc")) (codes "path") path_size)
      else zero_conf

  -- A `tty` port without a `tty` object is left before its `fd` is set.
  abbrev pub parsed_fd : Text → Option Node → ℤ
  parsed_fd type_str none = if str_eq type_str (codes "tty") then pos 0 else minus_one
  parsed_fd type_str (some tty) = minus_one

  -- One turn of the loop of `parse_ports`.
  unfoldable pub parse_port : Node → PortDef
  unfolding get_str parse_conf
  parse_port it =
      let type_str = get_str (some it) (codes "type") name_size in
      record {
        name = get_str (some it) (codes "name") name_size;
        fd = parsed_fd type_str (item it (codes "tty"));
        use_frame = is_true (item it (codes "use_frame") >>= bool_value);
        conf = parse_conf it type_str;
      }

  -- One turn of the loops of `parse_plugins` and `parse_routes`.
  unfoldable pub parse_plugin : Node → PluginDef
  unfolding get_str
  parse_plugin it = record {
    name = get_str (some it) (codes "name") name_size;
    path = get_str (some it) (codes "path") plugin_path_size;
  }

  unfoldable pub parse_route : Node → Route
  unfolding get_str
  parse_route it = record {
    src = get_str (some it) (codes "src") name_size;
    dst = get_str (some it) (codes "dst") name_size;
    plugin = get_str (some it) (codes "plugin") name_size;
    handler = get_str (some it) (codes "handler") addr_size;
  }

  -- The loop over an array, with `count` entries in the table; a full table ends it.
  unfoldable pub fill : {A : Type 0} → (Node → A) → ℕ → ℕ → List Node → List A
  fill f capacity count [] = []
  fill f capacity count (it ∷ its) =
      let rest = fill f capacity (count + 1) its in if ltb count capacity then f it ∷ rest else []

  -- The table is left as it is, after `clear_config`, if there is no array.
  unfoldable pub parse_array : {A : Type 0} → (Node → A) → ℕ → Option (List Node) → List A
  unfolding fill
  parse_array f capacity none = []
  parse_array f capacity (some its) = fill f capacity 0 its

  abbrev pub parse_ports : Option Node → List PortDef
  parse_ports arr = parse_array parse_port max_ports (arr >>= elements)

  abbrev pub parse_plugins : Option Node → List PluginDef
  parse_plugins arr = parse_array parse_plugin max_plugins (arr >>= elements)

  abbrev pub parse_routes : Option Node → List Route
  parse_routes arr = parse_array parse_route max_routes (arr >>= elements)

  -- The three calls on the root of a document.
  unfoldable pub parse_config : Node → Config
  unfolding parse_array parse_port parse_plugin parse_route
  parse_config root = record {
    ports = parse_ports (item root (codes "ports"));
    plugins = parse_plugins (item root (codes "plugins"));
    routes = parse_routes (item root (codes "routes"));
  }

  -- `load_config` from the test of `root` on.
  unfoldable pub load_root : Option Node → ℤ × Config
  unfolding parse_config
  load_root none = (minus_one, clear_config)
  load_root (some root) = (pos 0, parse_config root)

  -- `load_config`: the file's bytes, or none if it cannot be opened. The configuration before the
  -- call does not matter, since it is cleared first.
  unfoldable pub load_config : Option (List ℕ) → Config → ℤ × Config
  unfolding load_root
  load_config file g_config = load_root (file >>= parse)
