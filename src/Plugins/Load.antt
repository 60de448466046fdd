-- ===== src/Plugins/Load.antt =====
-- plugin_loader.c: `plugin_load`, and ez_router.c: the loop that calls it for each plugin of the
-- configuration.
use embedded_device_forwarde.Prelude.{ℕ, suc, ◌≡◌, refl, List, [], ◌∷◌, Option, none, some}
use embedded_device_forwarde.Prelude.Int.{ℤ, pos, minus_one}
use embedded_device_forwarde.Prelude.Text.{Text}
use embedded_device_forwarde.Reactor.Bounds.{Keeps}
use embedded_device_forwarde.Plugins.Table.{HandlerEntry, get_handler}
use embedded_device_forwarde.Plugins.Keep.{AllKeep, get_handler-KeepsSize}

-- What the i-th call of `dlopen` does on a path: it fails, or it runs the constructors of the object,
-- which change the table of handlers; those of one that is already open are not run again.
abbrev pub Dlopen : Type 0
Dlopen = ℕ → Text → Option (List HandlerEntry → List HandlerEntry)

unfoldable pub plugin_load : Dlopen → ℕ → Text → List HandlerEntry → ℤ × List HandlerEntry
plugin_load dlopen i path table = elim (dlopen i path) [
  | none ↦ (minus_one, table)
  | some constructors ↦ (pos 0, constructors table)
]

-- `main` does not read the results.
unfoldable pub load_plugins : Dlopen → ℕ → List Text → List HandlerEntry → List HandlerEntry
unfolding plugin_load
load_plugins dlopen i [] table = table
load_plugins dlopen i (path ∷ paths) table =
    load_plugins dlopen (suc i) paths (plugin_load dlopen i path table).1

-- Each plugin registers only handlers that write within the buffer.
abbrev pub WellBehaved : Dlopen → Type 0
WellBehaved dlopen =
    (i : ℕ) (path : Text) (constructors : List HandlerEntry → List HandlerEntry)
    → dlopen i path ≡ some constructors
    → (table : List HandlerEntry) → AllKeep table
    → AllKeep (constructors table)

load_one :
    (o : Option (List HandlerEntry → List HandlerEntry)) (table : List HandlerEntry)
    → ((constructors : List HandlerEntry → List HandlerEntry)
        → o ≡ some constructors
        → AllKeep (constructors table))
    → AllKeep table
    → AllKeep (
        let r : ℤ × List HandlerEntry = elim o [
          | none ↦ (minus_one, table)
          | some constructors ↦ (pos 0, constructors table)
        ] in
        r.1)
load_one none table good k = k
load_one (some constructors) table good k = good constructors refl

load_plugins-AllKeep :
    (dlopen : Dlopen) (i : ℕ) (paths : List Text) (table : List HandlerEntry)
    → WellBehaved dlopen
    → AllKeep table
    → AllKeep (load_plugins dlopen i paths table)
unfolding load_plugins
load_plugins-AllKeep dlopen i [] table good k = k
load_plugins-AllKeep dlopen i (path ∷ paths) table good k =
    load_plugins-AllKeep dlopen (suc i) paths (plugin_load dlopen i path table).1 good
      (load_one (dlopen i path) table (λ c e. good i path c e table k) k)

-- The handlers that the reactor finds once plugins that are well behaved have been loaded.
pub load_plugins-Keeps :
    (dlopen : Dlopen) (paths : List Text)
    → WellBehaved dlopen
    → Keeps (get_handler (load_plugins dlopen 0 paths []))
unfolding AllKeep
load_plugins-Keeps dlopen paths good name h e =
    get_handler-KeepsSize (load_plugins dlopen 0 paths []) name h
      (load_plugins-AllKeep dlopen 0 paths [] good tt) e
