-- ===== src/Json/Doc.antt =====
-- Documents as the calls that made them, and a model of cJSON that reads one document.
use mathlib.Core.Option
use embedded_device_forwarde.Prelude.{List, [], ◌∷◌, ◌++◌, Option, none, some, if◌then◌else◌}
use embedded_device_forwarde.Prelude.Int.{ℤ}
use embedded_device_forwarde.Prelude.Text.{Text, str_ieq}
use embedded_device_forwarde.Json.{Cjson}
use embedded_device_forwarde.Json.Build.{first_of}

pub data Doc : Type 0 where
  text : Text → Doc
  number : ℤ → Doc
  object : Doc
  field : Doc → Text → Doc → Doc
  array : Doc
  entry : Doc → Doc → Doc

abbrev pub doc_item : Doc → Text → Option Doc
doc_item (field o key v) j = first_of (doc_item o j) (if str_ieq key j then some v else none)
doc_item _ j = none

abbrev pub doc_text : Doc → Option Text
doc_text (text s) = some s
doc_text _ = none

abbrev pub doc_int : Doc → Option ℤ
doc_int (number n) = some n
doc_int _ = none

abbrev pub doc_elements : Doc → Option (List Doc)
doc_elements array = some []
doc_elements (entry a v) = Option.map (λ vs. vs ++ v ∷ []) (doc_elements a)
doc_elements _ = none

-- A parser that makes this document of all bytes.
abbrev pub reader : Doc → Cjson
reader root = record {
  Node = Doc;
  parse = λ bytes. some root;
  item_case_sensitive = doc_item;
  item = doc_item;
  string_value = doc_text;
  int_value = doc_int;
  bool_value = λ node. none;
  elements = doc_elements;
}
