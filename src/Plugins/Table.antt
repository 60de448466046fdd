-- ===== src/Plugins/Table.antt =====
-- plugin_loader.c: `g_handlers`, of which the list holds the first `g_handler_count` entries.
use embedded_device_forwarde.Prelude.{
  Bool, true, false, lt→ltb, lt→ltb, ℕ, ◌-◌, ◌<◌, ◌≡◌, refl, ◌∙◌, ap, List, [], ◌∷◌, ◌++◌, Option,
  none, some, take, length, ltb, if◌then◌else◌,
}
use embedded_device_forwarde.Prelude.Text.{Text, codes, str_eq}
use embedded_device_forwarde.Reactor.Route.{Handler}

abbrev pub max_handlers : ℕ
max_handlers = 256

abbrev pub full_name_size : ℕ
full_name_size = 128

-- `handler_entry_t`.
pub record HandlerEntry : Type 0 where
  pub full_name : Text
  pub func : Handler

-- What `snprintf` with "%s.%s" leaves in the array.
abbrev pub full_name_of : Text → Text → Text
full_name_of plugin_name handler_name =
    take (full_name_size - 1) (plugin_name ++ codes "." ++ handler_name)

unfoldable pub register_handler : Text → Text → Handler → List HandlerEntry → List HandlerEntry
register_handler plugin_name handler_name func table =
    if ltb (length table) max_handlers
    then table ++ record { full_name = full_name_of plugin_name handler_name; func = func } ∷ []
    else table

unfoldable pub get_handler : List HandlerEntry → Text → Option Handler
get_handler [] fullname = none
get_handler (e ∷ es) fullname =
    let rest = get_handler es fullname in if str_eq e.full_name fullname then some e.func else rest

-- The handler that was found first, or else the second one.
unfoldable pub or_else : Option Handler → Option Handler → Option Handler
or_else none other = other
or_else (some h) other = some h

first :
    (b : Bool) (h : Handler) {o : Option Handler} (rest other : Option Handler)
    → o ≡ or_else rest other
    → (if b then some h else o) ≡ or_else (if b then some h else rest) other
unfolding or_else
first true h rest other e = refl
first false h rest other e = e

get_handler-append :
    (es fs : List HandlerEntry) (name : Text)
    → get_handler (es ++ fs) name ≡ or_else (get_handler es name) (get_handler fs name)
unfolding get_handler or_else
get_handler-append [] fs name = refl
get_handler-append (e ∷ es) fs name =
    first (str_eq e.full_name name) e.func (get_handler es name) (get_handler fs name)
      (get_handler-append es fs name)

-- While there is room, a handler that is registered is found by its full name, as far as the array
-- holds it, unless an earlier one has that name; every other name finds what it found before.
pub get_handler-register_handler :
    (plugin_name handler_name : Text) (func : Handler) (table : List HandlerEntry) (name : Text)
    → length table < max_handlers
    → get_handler (register_handler plugin_name handler_name func table) name
      ≡ or_else
          (get_handler table name)
          (if str_eq (full_name_of plugin_name handler_name) name then some func else none)
unfolding register_handler get_handler
get_handler-register_handler plugin_name handler_name func table name h =
    let new : HandlerEntry = record {
      full_name = full_name_of plugin_name handler_name;
      func = func;
    } in
    ap (λ t. get_handler (if t then table ++ new ∷ [] else table) name)
      (lt→ltb (length table) max_handlers h)
    ∙ get_handler-append table (new ∷ []) name
