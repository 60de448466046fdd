-- ===== src/Registry/Parse.antt =====
-- registry.c: `json_str` and `parse_register_json`. The parser of cJSON is a parameter.
use embedded_device_forwarde.Prelude.{
  ℕ, ◌+◌, List, [], ◌∷◌, Option, none, some, take, set, leb, ltb, ◌==◌, ◌||◌, if◌then◌else◌,
}
use embedded_device_forwarde.Prelude.Fallible.{◌>>=◌}
use embedded_device_forwarde.Prelude.Text.{Text, codes}
use embedded_device_forwarde.Json.{Cjson}
use embedded_device_forwarde.Registry.Entry.{
  Entry, copy_field, device_id_len, model_len, fw_version_len, build_date_len, port_name_len,
  max_ports_per_subproc,
}

abbrev pub max_register_len : ℕ
max_register_len = 4096

module _ (cjson : Cjson) where
  open cjson use {Node, parse, item_case_sensitive, string_value, elements}

  json_str : Node → Text → Option Text
  json_str obj key = do v ← item_case_sensitive obj key; string_value v

  -- One turn of the loop over `ports`: an item with no name is passed over.
  add_port : Option Text → Entry → Entry
  add_port none e = e
  add_port (some name) e = record e {
    port_names = set e.port_names e.port_count (copy_field [] port_name_len (some name));
    port_count = e.port_count + 1;
  }

  add_ports : List Node → Entry → Entry
  unfolding json_str add_port
  add_ports [] e = e
  add_ports (it ∷ its) e =
      if leb max_ports_per_subproc e.port_count
      then e
      else add_ports its (add_port (json_str it (codes "name")) e)

  add_port_array : Option (List Node) → Entry → Entry
  unfolding add_ports
  add_port_array none e = e
  add_port_array (some its) e = add_ports its e

  -- `parse_register_json(json, json_len, e)`; `none` is its -1.
  unfoldable pub parse_register_json : List ℕ → ℕ → Entry → Option Entry
  unfolding json_str add_port_array
  parse_register_json json json_len e =
      if json_len == 0 || ltb max_register_len json_len then none else do
        root ← parse (take json_len json)
        device_id ← json_str root (codes "device_id")
        model ← json_str root (codes "model")
        fw_version ← json_str root (codes "fw_version")
        build_date ← json_str root (codes "build_date")
        let e' = record e {
          device_id = copy_field e.device_id device_id_len (some device_id);
          model = copy_field e.model model_len (some model);
          fw_version = copy_field e.fw_version fw_version_len (some fw_version);
          build_date = copy_field e.build_date build_date_len (some build_date);
          port_count = 0;
        }
        some (add_port_array (item_case_sensitive root (codes "ports") >>= elements) e')
