-- ===== src/Config/Bounds.antt =====
-- The sizes of the tables and arrays of `config_t`, and what `load_config` puts in them.
use embedded_device_forwarde.Prelude.{
  Bool, true, false, ℕ, ◌+◌, ◌-◌, ◌≤◌, ◌<◌, List, [], ◌∷◌, Option, none, some, length, length-take,
  ltb, if◌then◌else◌, All, arith,
}
use embedded_device_forwarde.Prelude.Fallible.{◌>>=◌}
use embedded_device_forwarde.Prelude.Text.{Text, codes, str_eq}
use embedded_device_forwarde.Json.{Cjson}
use embedded_device_forwarde.Config.Types.{
  Conf, tty_conf, tcp_server_conf, tcp_client_conf, udp_conf, usb_conf, ipc_conf, PortDef,
  PluginDef, Route, Config, max_ports, max_plugins, max_routes, name_size, addr_size, path_size,
  plugin_path_size,
}
use embedded_device_forwarde.Config.Parse.{
  get_str, parse_tty, parse_conf, parse_port, parse_plugin, parse_route, fill, parse_array,
  parse_config, load_root, load_config, text_or_empty,
}

-- The string leaves room for its NUL.
abbrev pub ShorterThan : ℕ → Text → Type 0
ShorterThan size s = length s < size

unfoldable pub ConfFits : Conf → Type 0
ConfFits (tty_conf t) = ShorterThan path_size t.path
ConfFits (tcp_server_conf addr port backlog) = ShorterThan addr_size addr
ConfFits (tcp_client_conf addr port) = ShorterThan addr_size addr
ConfFits (udp_conf addr port) = ShorterThan addr_size addr
ConfFits (usb_conf path) = ShorterThan path_size path
ConfFits (ipc_conf path) = ShorterThan path_size path

abbrev pub PortFits : PortDef → Type 0
PortFits p = ShorterThan name_size p.name × ConfFits p.conf

abbrev pub PluginFits : PluginDef → Type 0
PluginFits p = ShorterThan name_size p.name × ShorterThan plugin_path_size p.path

abbrev pub RouteFits : Route → Type 0
RouteFits r =
    ShorterThan name_size r.src
    × ShorterThan name_size r.dst
    × ShorterThan name_size r.plugin
    × ShorterThan addr_size r.handler

pub record IsValid (cfg : Config) : Type 0 where
  pub port_room : length cfg.ports ≤ max_ports
  pub plugin_room : length cfg.plugins ≤ max_plugins
  pub route_room : length cfg.routes ≤ max_routes
  pub ports_fit : All PortFits cfg.ports
  pub plugins_fit : All PluginFits cfg.plugins
  pub routes_fit : All RouteFits cfg.routes

if-ConfFits : (b : Bool) (c d : Conf) → ConfFits c → ConfFits d → ConfFits (if b then c else d)
if-ConfFits true c d hc hd = hc
if-ConfFits false c d hc hd = hd

module _ (cjson : Cjson) where
  open cjson use {Node, parse, item, string_value, elements}

  get_str-ShorterThan :
      (obj : Option Node) (key : Text) (size : ℕ)
      → 0 < size
      → ShorterThan size (get_str cjson obj key size)
  unfolding get_str
  get_str-ShorterThan obj key size h =
      let s = text_or_empty (obj >>= λ o. item o key >>= string_value) in
      omega (arith, length-take (size - 1) s)

  parse_tty-ConfFits : (tty : Option Node) → ConfFits (parse_tty cjson tty)
  unfolding parse_tty ConfFits
  parse_tty-ConfFits none = omega arith
  parse_tty-ConfFits (some tty) =
      get_str-ShorterThan (some tty) (codes "path") path_size (omega arith)

  parse_conf-ConfFits : (it : Node) (type_str : Text) → ConfFits (parse_conf cjson it type_str)
  unfolding parse_conf ConfFits
  parse_conf-ConfFits it type_str =
      let str = λ (obj : Option Node) (key : Text) (size : ℕ) (h : 0 < size).
        get_str-ShorterThan obj key size h in
      if-ConfFits (str_eq type_str (codes "tty")) _ _ (parse_tty-ConfFits (item it (codes "tty"))) (
        if-ConfFits (str_eq type_str (codes "tcp_server")) _ _
          (str (item it (codes "tcp_server")) (codes "bind") addr_size (omega arith))
          (if-ConfFits (str_eq type_str (codes "tcp_client")) _ _
            (str (item it (codes "tcp_client")) (codes "addr") addr_size (omega arith))
            (if-ConfFits (str_eq type_str (codes "udp")) _ _
              (str (item it (codes "udp")) (codes "bind") addr_size (omega arith))
              (if-ConfFits (str_eq type_str (codes "usb")) _ _
                (str (item it (codes "usb")) (codes "path") path_size (omega arith))
                (if-ConfFits (str_eq type_str (codes "ipc")) _ _
                  (str (item it (codes "ipc")) (codes "path") path_size (omega arith))
                  (omega arith))))))

  fill-length :
      {A : Type 0} (f : Node → A) (capacity count : ℕ) (its : List Node)
      → count ≤ capacity
      → count + length (fill cjson f capacity count its) ≤ capacity
  unfolding fill
  fill-length f capacity count [] h = omega arith
  fill-length f capacity count (it ∷ its) h = ground (arith, fill-length f capacity (count + 1) its)

  fill-All :
      {A : Type 0} (P : A → Type 0) (f : Node → A) (capacity count : ℕ) (its : List Node)
      → ((it : Node) → P (f it))
      → All P (fill cjson f capacity count its)
  unfolding fill
  fill-All P f capacity count [] h = tt
  fill-All P f capacity count (it ∷ its) h =
      elim (ltb count capacity)
        as (λ b. All P (if b then f it ∷ fill cjson f capacity (count + 1) its else [])) [
          | true ↦ (h it, fill-All P f capacity (count + 1) its h)
          | false ↦ tt
        ]

  parse_array-length :
      {A : Type 0} (f : Node → A) (capacity : ℕ) (arr : Option (List Node))
      → length (parse_array cjson f capacity arr) ≤ capacity
  unfolding parse_array
  parse_array-length f capacity none = omega arith
  parse_array-length f capacity (some its) =
      omega (arith, fill-length f capacity 0 its (omega arith))

  parse_array-All :
      {A : Type 0} (P : A → Type 0) (f : Node → A) (capacity : ℕ) (arr : Option (List Node))
      → ((it : Node) → P (f it))
      → All P (parse_array cjson f capacity arr)
  unfolding parse_array
  parse_array-All P f capacity none h = tt
  parse_array-All P f capacity (some its) h = fill-All P f capacity 0 its h

  parse_port-PortFits : (it : Node) → PortFits (parse_port cjson it)
  unfolding parse_port
  parse_port-PortFits it =
      let type_str = get_str cjson (some it) (codes "type") name_size in
      (
        get_str-ShorterThan (some it) (codes "name") name_size (omega arith),
        parse_conf-ConfFits it type_str,
      )

  parse_plugin-PluginFits : (it : Node) → PluginFits (parse_plugin cjson it)
  unfolding parse_plugin
  parse_plugin-PluginFits it = (
    get_str-ShorterThan (some it) (codes "name") name_size (omega arith),
    get_str-ShorterThan (some it) (codes "path") plugin_path_size (omega arith),
  )

  parse_route-RouteFits : (it : Node) → RouteFits (parse_route cjson it)
  unfolding parse_route
  parse_route-RouteFits it = (
    get_str-ShorterThan (some it) (codes "src") name_size (omega arith),
    get_str-ShorterThan (some it) (codes "dst") name_size (omega arith),
    get_str-ShorterThan (some it) (codes "plugin") name_size (omega arith),
    get_str-ShorterThan (some it) (codes "handler") addr_size (omega arith),
  )

  parse_config-IsValid : (root : Node) → IsValid (parse_config cjson root)
  unfolding parse_config
  parse_config-IsValid root = record {
    port_room =
        parse_array-length (parse_port cjson) max_ports (item root (codes "ports") >>= elements);
    plugin_room =
        parse_array-length (parse_plugin cjson) max_plugins
          (item root (codes "plugins") >>= elements);
    route_room =
        parse_array-length (parse_route cjson) max_routes (item root (codes "routes") >>= elements);
    ports_fit =
        parse_array-All PortFits (parse_port cjson) max_ports
          (item root (codes "ports") >>= elements) parse_port-PortFits;
    plugins_fit =
        parse_array-All PluginFits (parse_plugin cjson) max_plugins
          (item root (codes "plugins") >>= elements) parse_plugin-PluginFits;
    routes_fit =
        parse_array-All RouteFits (parse_route cjson) max_routes
          (item root (codes "routes") >>= elements) parse_route-RouteFits;
  }

  load_root-IsValid : (root : Option Node) → IsValid (load_root cjson root).1
  unfolding load_root
  load_root-IsValid none = record {
    port_room = omega arith;
    plugin_room = omega arith;
    route_room = omega arith;
    ports_fit = tt;
    plugins_fit = tt;
    routes_fit = tt;
  }
  load_root-IsValid (some root) = parse_config-IsValid root

  -- Whatever the file holds and whatever cJSON makes of it, the configuration that `load_config`
  -- leaves, also where it fails, has at most 32 ports, 32 plugins and 64 routes, and each of its
  -- strings leaves room for the NUL in its array.
  pub load_config-IsValid :
      (file : Option (List ℕ)) (g_config : Config) → IsValid (load_config cjson file g_config).1
  unfolding load_config
  load_config-IsValid file g_config = load_root-IsValid (file >>= parse)
