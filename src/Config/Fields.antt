-- ===== src/Config/Fields.antt =====
-- What is read back of the objects that `save_config` makes.
use embedded_device_forwarde.Prelude.{
  ℕ, ◌-◌, ◌≡◌, refl, ◌∙◌, ap, ap₂, List, [], ◌∷◌, false, none, some, take, take-length, arith,
}
use embedded_device_forwarde.Prelude.Fallible.{◌>>=◌}
use embedded_device_forwarde.Prelude.Int.{pos, ℤ, minus_one}
use embedded_device_forwarde.Prelude.Text.{Text, codes, str_ieq}
use embedded_device_forwarde.Json.{Cjson}
use embedded_device_forwarde.Json.Build.{Builder, BuildLaws, IsInt, built, find, item-object}
use embedded_device_forwarde.Config.Types.{
  TtyConf, Conf, tty_conf, PluginDef, Route, name_size, addr_size, path_size, plugin_path_size,
}
use embedded_device_forwarde.Config.Parse.{
  get_str, get_int, parse_tty, parse_conf, parse_port, parse_plugin, parse_route, text_or_empty,
  int_or_zero, as_enum, is_true, parsed_fd,
}
use embedded_device_forwarde.Config.Bounds.{ShorterThan, PluginFits, RouteFits}
use embedded_device_forwarde.Config.Print.{plugin_node, route_node, tty_node}
use embedded_device_forwarde.Config.Reload.{ConfInts}

as_enum-IsInt : (n : ℕ) → IsInt (pos n) → as_enum (pos n) ≡ n
as_enum-IsInt n h = omega arith

module _ (cjson : Cjson) (b : Builder cjson) (laws : BuildLaws cjson b) where
  open cjson use {Node, parse, item, string_value, int_value, elements}
  open b use {create_object, create_array, create_string, create_number}

  -- A string or a number that was added under a key, read with the size of its array.
  pub get_str-item :
      (o : Node) (key s : Text) (size : ℕ)
      → item o key ≡ some (create_string s)
      → ShorterThan size s
      → get_str cjson (some o) key size ≡ s
  unfolding get_str
  get_str-item o key s size e h =
      ap (λ x. take (size - 1) (text_or_empty (x >>= string_value))) e
      ∙ ap (λ x. take (size - 1) (text_or_empty x)) (laws.string_value-create_string s)
      ∙ take-length (size - 1) s (omega arith)

  pub get_int-item :
      (o : Node) (key : Text) (n : ℤ)
      → item o key ≡ some (create_number n)
      → IsInt n
      → get_int cjson (some o) key ≡ n
  unfolding get_int
  get_int-item o key n e h =
      ap (λ x. int_or_zero (x >>= int_value)) e ∙ ap int_or_zero (laws.int_value-create_number n h)

  pub parse_plugin-plugin_node :
      (p : PluginDef) → PluginFits p → parse_plugin cjson (plugin_node cjson b p) ≡ p
  unfolding parse_plugin plugin_node str_ieq
  parse_plugin-plugin_node p h =
      let o = plugin_node cjson b p in
      let fields : List (Text × Node) =
        (codes "name", create_string p.name) ∷ (codes "path", create_string p.path) ∷ [] in
      ap₂ (λ n q. record { name = n; path = q })
        (get_str-item o (codes "name") p.name name_size
          (item-object cjson b laws fields (codes "name")) h.0)
        (get_str-item o (codes "path") p.path plugin_path_size
          (item-object cjson b laws fields (codes "path")) h.1)

  pub parse_route-route_node :
      (r : Route) → RouteFits r → parse_route cjson (route_node cjson b r) ≡ r
  unfolding parse_route route_node str_ieq
  parse_route-route_node r h =
      let o = route_node cjson b r in
      let fields : List (Text × Node) =
        (codes "src", create_string r.src)
        ∷ (codes "dst", create_string r.dst)
        ∷ (codes "plugin", create_string r.plugin)
        ∷ (codes "handler", create_string r.handler)
        ∷ [] in
      let str =
        λ (key s : Text) (size : ℕ) (e : find cjson b fields key ≡ some (create_string s))
            (f : ShorterThan size s).
          get_str-item o key s size (item-object cjson b laws fields key ∙ e) f in
      λ i. record {
        src = str (codes "src") r.src name_size refl h.0 i;
        dst = str (codes "dst") r.dst name_size refl h.1 i;
        plugin = str (codes "plugin") r.plugin name_size refl h.2 i;
        handler = str (codes "handler") r.handler addr_size refl h.3 i;
      }

  pub parse_tty-tty_node :
      (t : TtyConf)
      → ShorterThan path_size t.path
      → ConfInts (tty_conf t)
      → parse_tty cjson (some (tty_node cjson b t)) ≡ tty_conf t
  unfolding parse_tty tty_node str_ieq ConfInts
  parse_tty-tty_node t h n =
      let o = tty_node cjson b t in
      let fields : List (Text × Node) =
        (codes "path", create_string t.path)
        ∷ (codes "baudrate", create_number t.baudrate)
        ∷ (codes "databits", create_number t.databits)
        ∷ (codes "stopbits", create_number t.stopbits)
        ∷ (codes "parity", create_number (pos t.parity))
        ∷ (codes "flow", create_number (pos t.flow))
        ∷ [] in
      let num =
        λ (key : Text) (n : ℤ) (e : find cjson b fields key ≡ some (create_number n)) (f : IsInt n).
          get_int-item o key n (item-object cjson b laws fields key ∙ e) f in
      λ i. tty_conf (record {
        path =
            get_str-item o (codes "path") t.path path_size
              (item-object cjson b laws fields (codes "path")) h i;
        baudrate = num (codes "baudrate") t.baudrate refl n.0 i;
        databits = num (codes "databits") t.databits refl n.1 i;
        stopbits = num (codes "stopbits") t.stopbits refl n.2 i;
        parity =
            (ap as_enum (num (codes "parity") (pos t.parity) refl n.3) ∙ as_enum-IsInt t.parity n.3)
              i;
        flow = (ap as_enum (num (codes "flow") (pos t.flow) refl n.4) ∙ as_enum-IsInt t.flow n.4) i;
      })

  -- A port read from an object of which only the settings are still to be read.
  pub parse_port-built :
      (name type_str : Text) (fields : List (Text × Node)) (c : Conf)
      → (let o = built cjson b create_object fields in
          find cjson b fields (codes "name") ≡ some (create_string name)
          → ShorterThan name_size name
          → get_str cjson (some o) (codes "type") name_size ≡ type_str
          → find cjson b fields (codes "use_frame") ≡ none
          → parsed_fd cjson type_str (find cjson b fields (codes "tty")) ≡ minus_one
          → parse_conf cjson o type_str ≡ c
          → parse_port cjson o
            ≡ record { name = name; fd = minus_one; use_frame = false; conf = c })
  unfolding parse_port
  parse_port-built name type_str fields c en hn et eu ef ec =
      let o = built cjson b create_object fields in
      let at = item-object cjson b laws fields in
      let fd = ap₂ (parsed_fd cjson) et (at (codes "tty")) ∙ ef in
      let frame = ap (λ x. is_true (x >>= cjson.bool_value)) (at (codes "use_frame") ∙ eu) in
      let conf = ap (parse_conf cjson o) et ∙ ec in
      let named = get_str-item o (codes "name") name name_size (at (codes "name") ∙ en) hn in
      λ i. record { name = named i; fd = fd i; use_frame = frame i; conf = conf i }
