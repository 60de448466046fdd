-- ===== src/Json/Build.antt =====
-- The functions of routerd/3rdparty/cjson that make a document: parameters, as those that read one.
-- A call that changes an object or an array returns the changed one.
use embedded_device_forwarde.Prelude.{
  ℕ, ◌<◌, ◌≡◌, refl, ◌∙◌, ap, List, [], ◌∷◌, ◌++◌, Bool, true, false, Option, none, some,
  if◌then◌else◌,
}
use embedded_device_forwarde.Prelude.Int.{ℤ, pos, negsuc}
use embedded_device_forwarde.Prelude.Text.{Text, str_ieq}
use embedded_device_forwarde.Json.{Cjson}

-- The values of a 32-bit `int`.
abbrev pub IsInt : ℤ → Type 0
IsInt (pos n) = n < 2147483648
IsInt (negsuc n) = n < 2147483648

-- cJSON_CreateObject, cJSON_CreateArray, cJSON_CreateString, cJSON_CreateNumber,
-- cJSON_AddItemToObject, cJSON_AddItemToArray, cJSON_Print.
pub record Builder (cjson : Cjson) : Type 0 where
  pub create_object : cjson.Node
  pub create_array : cjson.Node
  pub create_string : Text → cjson.Node
  pub create_number : ℤ → cjson.Node
  pub add_item_to_object : cjson.Node → Text → cjson.Node → cjson.Node
  pub add_item_to_array : cjson.Node → cjson.Node → cjson.Node
  pub print : cjson.Node → List ℕ

-- The first item that is there.
abbrev pub first_of {ℓ} : {A : Type ℓ} → Option A → Option A → Option A
first_of none b = b
first_of (some a) b = some a

-- What cJSON documents of them: an object gives the first item whose key is the same but for the
-- case, a value that was made is read back, and an item is added at the end of an array.
pub record BuildLaws (cjson : Cjson) (b : Builder cjson) : Type 0 where
  pub item-create_object : (key : Text) → cjson.item b.create_object key ≡ none
  pub item-add_item :
      (o : cjson.Node) (key : Text) (v : cjson.Node) (j : Text)
      → cjson.item (b.add_item_to_object o key v) j
        ≡ first_of (cjson.item o j) (if str_ieq key j then some v else none)
  pub string_value-create_string : (s : Text) → cjson.string_value (b.create_string s) ≡ some s
  pub int_value-create_number : (n : ℤ) → IsInt n → cjson.int_value (b.create_number n) ≡ some n
  pub elements-create_array : cjson.elements b.create_array ≡ some []
  pub elements-add_item :
      (a v : cjson.Node) (vs : List cjson.Node)
      → cjson.elements a ≡ some vs
      → cjson.elements (b.add_item_to_array a v) ≡ some (vs ++ v ∷ [])

first_of-none {ℓ} : {A : Type ℓ} (o : Option A) → o ≡ first_of o none
first_of-none none = refl
first_of-none (some a) = refl

first_of-find {ℓ} :
    {A : Type ℓ} (o : Option A) (t : Bool) (v : A) (rest : Option A)
    → first_of (first_of o (if t then some v else none)) rest
      ≡ first_of o (if t then some v else rest)
first_of-find none true v rest = refl
first_of-find none false v rest = refl
first_of-find (some a) t v rest = refl

module _ (cjson : Cjson) (b : Builder cjson) where
  open cjson use {Node, item}

  -- An object to which these items are added in this order.
  abbrev pub built : Node → List (Text × Node) → Node
  built o [] = o
  built o ((key, v) ∷ fields) = built (b.add_item_to_object o key v) fields

  abbrev pub find : List (Text × Node) → Text → Option Node
  find [] j = none
  find ((key, v) ∷ fields) j = if str_ieq key j then some v else find fields j

  module _ (laws : BuildLaws cjson b) where
    item-built :
        (o : Node) (fields : List (Text × Node)) (j : Text)
        → item (built o fields) j ≡ first_of (item o j) (find fields j)
    item-built o [] j = first_of-none (item o j)
    item-built o ((key, v) ∷ fields) j =
        item-built (b.add_item_to_object o key v) fields j
        ∙ ap (λ x. first_of x (find fields j)) (laws.item-add_item o key v j)
        ∙ first_of-find (item o j) (str_ieq key j) v (find fields j)

    -- An object gives back the first of the items that were added under a key.
    pub item-object :
        (fields : List (Text × Node)) (j : Text)
        → item (built b.create_object fields) j ≡ find fields j
    item-object fields j =
        item-built b.create_object fields j
        ∙ ap (λ x. first_of x (find fields j)) (laws.item-create_object j)
