-- ===== src/Json/Toy.antt =====
-- A stand-in for cJSON that the examples run on: a document is its text, its `device_id` is the
-- whole text, every other field is the name of the field, and an array has two objects.
use embedded_device_forwarde.Prelude.{[], ◌∷◌, none, some, if◌then◌else◌}
use embedded_device_forwarde.Prelude.Text.{Text, codes, str_eq}
use embedded_device_forwarde.Json.{Cjson}

abbrev pub toy : Cjson
toy = record {
  Node = Text;
  parse = λ bytes. some bytes;
  item_case_sensitive = λ node key. some (if str_eq key (codes "device_id") then node else key);
  item = λ node key. some key;
  string_value = λ node. some node;
  int_value = λ node. none;
  bool_value = λ node. none;
  elements = λ node. some (codes "a" ∷ codes "b" ∷ []);
}
