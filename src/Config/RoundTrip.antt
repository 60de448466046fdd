-- ===== src/Config/RoundTrip.antt =====
-- What `load_config` makes of a file that `save_config` wrote.
use mathlib.Core.List.{map-id}
use mathlib.Core.List
use embedded_device_forwarde.Prelude.{
  ℕ, ◌+◌, ◌≤◌, ◌≡◌, refl, ◌∙◌, ap, ap₂, sym, List, [], ◌∷◌, ◌++◌, append-nil, append_assoc, some,
  length, lt→ltb, if◌then◌else◌, All, arith,
}
use embedded_device_forwarde.Prelude.Fallible.{◌>>=◌}
use embedded_device_forwarde.Prelude.Int.{pos}
use embedded_device_forwarde.Prelude.Text.{Text, codes, str_ieq}
use embedded_device_forwarde.Json.{Cjson}
use embedded_device_forwarde.Json.Build.{Builder, BuildLaws, item-object}
use embedded_device_forwarde.Config.Types.{
  PortDef, PluginDef, Route, Config, max_ports, max_plugins, max_routes,
}
use embedded_device_forwarde.Config.Parse.{
  parse_port, parse_plugin, parse_route, fill, parse_array, parse_config, load_root, load_config,
}
use embedded_device_forwarde.Config.Bounds.{PortFits, PluginFits, RouteFits, IsValid}
use embedded_device_forwarde.Config.Print.{
  port_node, plugin_node, route_node, add_all, config_node, save_config,
}
use embedded_device_forwarde.Config.Reload.{ConfInts, reload_port, reload}
use embedded_device_forwarde.Config.Settings.{parse_port-port_node}
use embedded_device_forwarde.Config.Fields.{parse_plugin-plugin_node, parse_route-route_node}

module _ (cjson : Cjson) (b : Builder cjson) (laws : BuildLaws cjson b) where
  open cjson use {Node, parse, item, elements}
  open b use {create_object, create_array}

  -- An array that was filled gives back its items in order.
  elements-add_all :
      {A : Type 0} (f : A → Node) (arr : Node) (before : List Node) (xs : List A)
      → elements arr ≡ some before
      → elements (add_all cjson b f arr xs) ≡ some (before ++ List.map f xs)
  unfolding add_all
  elements-add_all f arr before [] e = e ∙ ap some (sym (append-nil before))
  elements-add_all f arr before (x ∷ xs) e =
      elements-add_all f (b.add_item_to_array arr (f x)) (before ++ f x ∷ []) xs
        (laws.elements-add_item arr (f x) before e)
      ∙ ap some (append_assoc before (f x ∷ []) (List.map f xs))

  fill-map :
      {A C : Type 0} (parse_one : Node → C) (f : A → Node) (again : A → C) (capacity count : ℕ)
      → (xs : List A) → count + length xs ≤ capacity
      → All (λ x. parse_one (f x) ≡ again x) xs
      → fill cjson parse_one capacity count (List.map f xs) ≡ List.map again xs
  unfolding fill
  fill-map parse_one f again capacity count [] room h = refl
  fill-map parse_one f again capacity count (x ∷ xs) room h =
      ap
        (λ t.
          if t
          then parse_one (f x) ∷ fill cjson parse_one capacity (count + 1) (List.map f xs)
          else [])
        (lt→ltb count capacity (omega arith))
      ∙ ap₂ (λ y ys. y ∷ ys) h.0
          (fill-map parse_one f again capacity (count + 1) xs (omega arith) h.1)

  parse_array-add_all :
      {A C : Type 0} (parse_one : Node → C) (f : A → Node) (again : A → C) (capacity : ℕ)
      → (root : Node) (key : Text) (xs : List A)
      → item root key ≡ some (add_all cjson b f create_array xs)
      → length xs ≤ capacity
      → All (λ x. parse_one (f x) ≡ again x) xs
      → parse_array cjson parse_one capacity (item root key >>= elements) ≡ List.map again xs
  unfolding parse_array
  parse_array-add_all parse_one f again capacity root key xs e room h =
      ap (λ x. parse_array cjson parse_one capacity (x >>= elements)) e
      ∙ ap (parse_array cjson parse_one capacity)
          (elements-add_all f create_array [] xs laws.elements-create_array)
      ∙ fill-map parse_one f again capacity 0 xs (omega arith) h

  ports-reload :
      (ps : List PortDef)
      → All PortFits ps
      → All (λ p. ConfInts p.conf) ps
      → All (λ p. parse_port cjson (port_node cjson b p) ≡ reload_port p) ps
  ports-reload [] h n = tt
  ports-reload (p ∷ ps) h n = (
    parse_port-port_node cjson b laws p.name p.fd p.use_frame p.conf h.0 n.0,
    ports-reload ps h.1 n.1,
  )

  plugins-reload :
      (ps : List PluginDef)
      → All PluginFits ps
      → All (λ p. parse_plugin cjson (plugin_node cjson b p) ≡ p) ps
  plugins-reload [] h = tt
  plugins-reload (p ∷ ps) h = (parse_plugin-plugin_node cjson b laws p h.0, plugins-reload ps h.1)

  routes-reload :
      (rs : List Route)
      → All RouteFits rs
      → All (λ r. parse_route cjson (route_node cjson b r) ≡ r) rs
  routes-reload [] h = tt
  routes-reload (r ∷ rs) h = (parse_route-route_node cjson b laws r h.0, routes-reload rs h.1)

  parse_config-config_node :
      (cfg : Config)
      → IsValid cfg
      → All (λ p. ConfInts p.conf) cfg.ports
      → parse_config cjson (config_node cjson b cfg) ≡ reload cfg
  unfolding parse_config config_node reload str_ieq
  parse_config-config_node cfg v n =
      let root = config_node cjson b cfg in
      let fields : List (Text × Node) =
        (codes "ports", add_all cjson b (port_node cjson b) create_array cfg.ports)
        ∷ (codes "plugins", add_all cjson b (plugin_node cjson b) create_array cfg.plugins)
        ∷ (codes "routes", add_all cjson b (route_node cjson b) create_array cfg.routes)
        ∷ [] in
      let at = item-object cjson b laws fields in
      λ i. record {
        ports =
            parse_array-add_all (parse_port cjson) (port_node cjson b) reload_port max_ports root
              (codes "ports") cfg.ports (at (codes "ports")) v.port_room
              (ports-reload cfg.ports v.ports_fit n) i;
        plugins =
            (parse_array-add_all (parse_plugin cjson) (plugin_node cjson b) (λ p. p) max_plugins
                  root (codes "plugins") cfg.plugins (at (codes "plugins")) v.plugin_room
                  (plugins-reload cfg.plugins v.plugins_fit)
                ∙ map-id cfg.plugins)
              i;
        routes =
            (parse_array-add_all (parse_route cjson) (route_node cjson b) (λ r. r) max_routes root
                  (codes "routes") cfg.routes (at (codes "routes")) v.route_room
                  (routes-reload cfg.routes v.routes_fit)
                ∙ map-id cfg.routes)
              i;
      }

  -- A configuration that is valid, whose numbers are `int`s, and whose parity and flow, which are
  -- unsigned, are at most the greatest `int`, is saved to a document that `load_config` reads back
  -- as the same configuration but for what is not saved: fds and
  -- `use_frame` are reset, and an IPC port comes back as a TTY without settings. cJSON is asked to
  -- parse what it has printed of this document, and to keep the laws of Json/Build.
  pub load_config-save_config :
      (cfg g_config : Config)
      → IsValid cfg
      → All (λ p. ConfInts p.conf) cfg.ports
      → parse (save_config cjson b cfg) ≡ some (config_node cjson b cfg)
      → load_config cjson (some (save_config cjson b cfg)) g_config ≡ (pos 0, reload cfg)
  unfolding load_config load_root
  load_config-save_config cfg g_config v n printed =
      ap (load_root cjson) printed ∙ ap (λ c. (pos 0, c)) (parse_config-config_node cfg v n)
