-- ===== src/Json.antt =====
-- routerd/3rdparty/cjson, as the rest of the program sees it: a parameter. Each field is one
-- accessor that the source calls; a result NULL, or a value of another JSON type, is `none`.
pub mod Build
pub mod Doc
pub mod Postfix
pub mod Toy
use embedded_device_forwarde.Prelude.{ℕ, List, Option, Bool}
use embedded_device_forwarde.Prelude.Text.{Text}
use embedded_device_forwarde.Prelude.Int.{ℤ}

pub record Cjson : Type 1 where
  pub Node : Type 0
  -- cJSON_Parse of the bytes, NUL-terminated
  pub parse : List ℕ → Option Node
  -- cJSON_GetObjectItemCaseSensitive and cJSON_GetObjectItem
  pub item_case_sensitive : Node → Text → Option Node
  pub item : Node → Text → Option Node
  -- cJSON_IsString with valuestring, cJSON_IsNumber with valueint, cJSON_IsBool with cJSON_IsTrue
  pub string_value : Node → Option Text
  pub int_value : Node → Option ℤ
  pub bool_value : Node → Option Bool
  -- cJSON_IsArray, with the items that cJSON_ArrayForEach visits
  pub elements : Node → Option (List Node)
