-- ===== src/Json/Postfix.antt =====
-- A model of cJSON that prints a document as a program for a stack, and parses it by running that.
use mathlib.Core.Option
use embedded_device_forwarde.Prelude.{
  ℕ, zero, suc, ◌≡◌, refl, ◌∙◌, ap, List, [], ◌∷◌, ◌++◌, append_assoc, append-nil, sym, Bool, true,
  false, Option, none, some, if◌then◌else◌, ◌==◌,
}
use embedded_device_forwarde.Prelude.Int.{ℤ, pos, negsuc}
use embedded_device_forwarde.Prelude.Text.{Text}
use embedded_device_forwarde.Json.{Cjson}
use embedded_device_forwarde.Json.Build.{Builder, BuildLaws}
use embedded_device_forwarde.Json.Doc.{
  Doc, text, number, object, field, array, entry, doc_item, doc_text, doc_int, doc_elements,
}

-- The bytes: T an empty text, C and a byte a text with one more character in front, P and N the
-- numbers 0 and -1, S one more away from them, O and A an object and an array, F and E the adding.
unfoldable print_text : Text → List ℕ
print_text [] = 84 ∷ []
print_text (c ∷ cs) = print_text cs ++ 67 ∷ c ∷ []

unfoldable print_far : ℕ → ℕ → List ℕ
print_far first zero = first ∷ []
print_far first (suc n) = print_far first n ++ 83 ∷ []

abbrev print_number : ℤ → List ℕ
print_number (pos n) = print_far 80 n
print_number (negsuc n) = print_far 78 n

unfoldable pub print_doc : Doc → List ℕ
unfolding print_text print_far
print_doc (text s) = print_text s
print_doc (number n) = print_number n
print_doc object = 79 ∷ []
print_doc (field o key v) = print_doc o ++ (print_text key ++ (print_doc v ++ 70 ∷ []))
print_doc array = 65 ∷ []
print_doc (entry a v) = print_doc a ++ (print_doc v ++ 69 ∷ [])

abbrev grow : List Doc → List Doc
grow (number (pos n) ∷ ds) = number (pos (suc n)) ∷ ds
grow (number (negsuc n) ∷ ds) = number (negsuc (suc n)) ∷ ds
grow ds = ds

abbrev add_field : List Doc → List Doc
add_field (v ∷ text key ∷ o ∷ ds) = field o key v ∷ ds
add_field ds = ds

abbrev add_entry : List Doc → List Doc
add_entry (v ∷ a ∷ ds) = entry a v ∷ ds
add_entry ds = ds

abbrev add_char : ℕ → List Doc → List Doc
add_char c (text s ∷ ds) = text (c ∷ s) ∷ ds
add_char c ds = ds

-- What a byte does to the stack.
unfoldable run_byte : ℕ → List Doc → List Doc
run_byte b ds =
    if b == 84
    then text [] ∷ ds
    else if b == 80
    then number (pos 0) ∷ ds
    else if b == 78
    then number (negsuc 0) ∷ ds
    else if b == 83
    then grow ds
    else if b == 79
    then object ∷ ds
    else if b == 65
    then array ∷ ds
    else if b == 70
    then add_field ds
    else if b == 69
    then add_entry ds
    else ds

-- The whole program; the next byte may be a character.
unfoldable pub run : Bool → List ℕ → List Doc → List Doc
unfolding run_byte
run in_text [] ds = ds
run true (c ∷ bytes) ds = run false bytes (add_char c ds)
run false (b ∷ bytes) ds = run (b == 67) bytes (run_byte b ds)

run-print_text :
    (s : Text) (rest : List ℕ) (ds : List Doc)
    → run false (print_text s ++ rest) ds ≡ run false rest (text s ∷ ds)
unfolding run print_text
run-print_text [] rest ds = refl
run-print_text (c ∷ cs) rest ds =
    ap (λ l. run false l ds) (append_assoc (print_text cs) (67 ∷ c ∷ []) rest)
    ∙ run-print_text cs (67 ∷ c ∷ rest) ds

run-print_pos :
    (n : ℕ) (rest : List ℕ) (ds : List Doc)
    → run false (print_far 80 n ++ rest) ds ≡ run false rest (number (pos n) ∷ ds)
unfolding run print_far
run-print_pos zero rest ds = refl
run-print_pos (suc n) rest ds =
    ap (λ l. run false l ds) (append_assoc (print_far 80 n) (83 ∷ []) rest)
    ∙ run-print_pos n (83 ∷ rest) ds

run-print_negsuc :
    (n : ℕ) (rest : List ℕ) (ds : List Doc)
    → run false (print_far 78 n ++ rest) ds ≡ run false rest (number (negsuc n) ∷ ds)
unfolding run print_far
run-print_negsuc zero rest ds = refl
run-print_negsuc (suc n) rest ds =
    ap (λ l. run false l ds) (append_assoc (print_far 78 n) (83 ∷ []) rest)
    ∙ run-print_negsuc n (83 ∷ rest) ds

run-print_doc :
    (d : Doc) (rest : List ℕ) (ds : List Doc)
    → run false (print_doc d ++ rest) ds ≡ run false rest (d ∷ ds)
unfolding run print_doc
run-print_doc (text s) rest ds = run-print_text s rest ds
run-print_doc (number (pos n)) rest ds = run-print_pos n rest ds
run-print_doc (number (negsuc n)) rest ds = run-print_negsuc n rest ds
run-print_doc object rest ds = refl
run-print_doc array rest ds = refl
run-print_doc (field o key v) rest ds =
    ap (λ l. run false l ds)
      (append_assoc (print_doc o) (print_text key ++ (print_doc v ++ 70 ∷ [])) rest
        ∙ ap (λ l. print_doc o ++ l)
            (append_assoc (print_text key) (print_doc v ++ 70 ∷ []) rest
              ∙ ap (λ l. print_text key ++ l) (append_assoc (print_doc v) (70 ∷ []) rest)))
    ∙ run-print_doc o (print_text key ++ (print_doc v ++ 70 ∷ rest)) ds
    ∙ run-print_text key (print_doc v ++ 70 ∷ rest) (o ∷ ds)
    ∙ run-print_doc v (70 ∷ rest) (text key ∷ o ∷ ds)
run-print_doc (entry a v) rest ds =
    ap (λ l. run false l ds)
      (append_assoc (print_doc a) (print_doc v ++ 69 ∷ []) rest
        ∙ ap (λ l. print_doc a ++ l) (append_assoc (print_doc v) (69 ∷ []) rest))
    ∙ run-print_doc a (print_doc v ++ 69 ∷ rest) ds
    ∙ run-print_doc v (69 ∷ rest) (a ∷ ds)

abbrev only : List Doc → Option Doc
only (d ∷ []) = some d
only ds = none

unfoldable pub parse_doc : List ℕ → Option Doc
parse_doc bytes = only (run false bytes [])

pub parse_doc-print_doc : (d : Doc) → parse_doc (print_doc d) ≡ some d
unfolding run parse_doc
parse_doc-print_doc d =
    ap (λ l. only (run false l [])) (sym (append-nil (print_doc d)))
    ∙ ap only (run-print_doc d [] [])

abbrev pub postfix : Cjson
postfix = record {
  Node = Doc;
  parse = parse_doc;
  item_case_sensitive = doc_item;
  item = doc_item;
  string_value = doc_text;
  int_value = doc_int;
  bool_value = λ node. none;
  elements = doc_elements;
}

abbrev pub postfix_builder : Builder postfix
postfix_builder = record {
  create_object = object;
  create_array = array;
  create_string = text;
  create_number = number;
  add_item_to_object = field;
  add_item_to_array = entry;
  print = print_doc;
}

pub postfix-BuildLaws : BuildLaws postfix postfix_builder
postfix-BuildLaws = record {
  item-create_object = λ key. refl;
  item-add_item = λ o key v j. refl;
  string_value-create_string = λ s. refl;
  int_value-create_number = λ n h. refl;
  elements-create_array = refl;
  elements-add_item = λ a v vs e. ap (λ x. Option.map (λ ws. ws ++ v ∷ []) x) e;
}
