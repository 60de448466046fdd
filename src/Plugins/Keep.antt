-- ===== src/Plugins/Keep.antt =====
-- Tables of handlers that write within the buffer of the reactor.
use embedded_device_forwarde.Prelude.{
  All, All-append, Bool, true, false, subst, ◌≡◌, List, [], ◌∷◌, ◌++◌, Option, none, some, length,
  ltb, if◌then◌else◌,
}
use embedded_device_forwarde.Prelude.Text.{Text, str_eq}
use embedded_device_forwarde.Reactor.Route.{Handler}
use embedded_device_forwarde.Reactor.Bounds.{KeepsSize}
use embedded_device_forwarde.Plugins.Table.{
  full_name_of, max_handlers, HandlerEntry, register_handler, get_handler,
}

-- Every handler of the table writes within the buffer.
unfoldable pub AllKeep : List HandlerEntry → Type 0
AllKeep = All (λ e. KeepsSize e.func)

Kept : Option Handler → Type 0
Kept none = Unit
Kept (some h) = KeepsSize h

chosen-KeepsSize :
    (b : Bool) (f h : Handler) (rest : Option Handler)
    → KeepsSize f
    → (rest ≡ some h → KeepsSize h)
    → (if b then some f else rest) ≡ some h
    → KeepsSize h
unfolding Kept
chosen-KeepsSize true f h rest kf kr e = subst (λ o. Kept o) e kf
chosen-KeepsSize false f h rest kf kr e = kr e

pub get_handler-KeepsSize :
    (table : List HandlerEntry) (name : Text) (h : Handler)
    → AllKeep table
    → get_handler table name ≡ some h
    → KeepsSize h
unfolding get_handler AllKeep
get_handler-KeepsSize [] name h k e = absurd (cc e)
get_handler-KeepsSize (x ∷ xs) name h k e =
    chosen-KeepsSize (str_eq x.full_name name) x.func h (get_handler xs name) k.0
      (get_handler-KeepsSize xs name h k.1) e

pub register_handler-AllKeep :
    (plugin_name handler_name : Text) (func : Handler) (table : List HandlerEntry)
    → KeepsSize func
    → AllKeep table
    → AllKeep (register_handler plugin_name handler_name func table)
unfolding register_handler AllKeep
register_handler-AllKeep plugin_name handler_name func table k h =
    kept_if (ltb (length table) max_handlers)
  where
    new : HandlerEntry
    new = record { full_name = full_name_of plugin_name handler_name; func = func }

    kept_if : (b : Bool) → AllKeep (if b then table ++ new ∷ [] else table)
    kept_if true = All-append (λ e. KeepsSize e.func) table (new ∷ []) h (k, tt)
    kept_if false = h
