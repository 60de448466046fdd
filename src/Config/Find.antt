-- ===== src/Config/Find.antt =====
-- The lookups by name: `config_find_port` and `config_find_plugin` of config_store.c, and
-- `port_find_by_name`, `port_get_fd_by_name`, `port_find_by_fd` of port_manager.c.
use mathlib.Core.Option
use embedded_device_forwarde.Prelude.{
  ℕ, suc, ◌<◌, ◌≡◌, refl, ◌∙◌, ap, sym, List, [], ◌∷◌, Bool, true, false, Option, none, some, take,
  take-length, length, length-take, if◌then◌else◌, All, arith, ◌↔◌,
}
use embedded_device_forwarde.Prelude.Int.{ℤ, minus_one, int_eq}
use embedded_device_forwarde.Prelude.Text.{Text, str_eq, str_eq_iff}
use embedded_device_forwarde.Config.Types.{PortDef, PluginDef, name_size}
use embedded_device_forwarde.Config.Bounds.{ShorterThan}

-- `strncmp(s, t, n) == 0`.
abbrev pub str_neq : ℕ → Text → Text → Bool
str_neq n s t = str_eq (take n s) (take n t)

find_port_loop : Text → List PortDef → Option PortDef
find_port_loop name [] = none
find_port_loop name (p ∷ ps) =
    if str_neq name_size p.name name then some p else find_port_loop name ps

-- `config_find_port(name)`, where a NULL name is the empty one, which it treats alike.
unfoldable pub find_port : Text → List PortDef → Option PortDef
unfolding find_port_loop
find_port [] ps = none
find_port (c ∷ name) ps = find_port_loop (c ∷ name) ps

-- `config_find_plugin(name)`; none is its -1.
unfoldable pub find_plugin : Text → List PluginDef → Option ℕ
find_plugin name [] = none
find_plugin name (p ∷ ps) =
    if str_eq p.name name then some 0 else Option.map suc (find_plugin name ps)

-- `port_find_by_name(name)`.
unfoldable pub find_by_name : Text → List PortDef → Option PortDef
find_by_name name [] = none
find_by_name name (p ∷ ps) = if str_eq p.name name then some p else find_by_name name ps

-- `port_get_fd_by_name(name)`.
unfoldable pub get_fd_by_name : Text → List PortDef → ℤ
get_fd_by_name name [] = minus_one
get_fd_by_name name (p ∷ ps) = if str_eq p.name name then p.fd else get_fd_by_name name ps

-- `port_find_by_fd(fd)`.
unfoldable pub find_by_fd : ℤ → List PortDef → Option PortDef
find_by_fd fd [] = none
find_by_fd fd (p ∷ ps) = if int_eq p.fd fd then some p else find_by_fd fd ps

Bool_ext : (a b : Bool) → (a ≡ true) ↔ (b ≡ true) → a ≡ b
Bool_ext true true h = refl
Bool_ext true false h = sym (h.0 refl)
Bool_ext false true h = h.1 refl
Bool_ext false false h = refl

-- A name that has room for its NUL is a prefix of 32 bytes only of itself.
take-ShorterThan :
    (s name : Text) → ShorterThan name_size s → take name_size s ≡ take name_size name → s ≡ name
take-ShorterThan s name h e =
    let whole = take-length name_size s (omega arith) in
    let short : length name < name_size =
      omega (arith, length-take name_size name, ap length (sym whole ∙ e)) in
    sym whole ∙ e ∙ take-length name_size name (omega arith)

str_neq-str_eq :
    (s name : Text) → ShorterThan name_size s → str_neq name_size s name ≡ str_eq s name
str_neq-str_eq s name h = Bool_ext (str_neq name_size s name) (str_eq s name) (
  λ e.
      (str_eq_iff s name).1
        (take-ShorterThan s name h ((str_eq_iff (take name_size s) (take name_size name)).0 e)),
  λ e.
      (str_eq_iff (take name_size s) (take name_size name)).1
        (ap (take name_size) ((str_eq_iff s name).0 e)),
)

find_port_loop-find_by_name :
    (name : Text) (ps : List PortDef)
    → All (λ p. ShorterThan name_size p.name) ps
    → find_port_loop name ps ≡ find_by_name name ps
unfolding find_port_loop find_by_name
find_port_loop-find_by_name name [] h = refl
find_port_loop-find_by_name name (p ∷ ps) h =
    ap (λ t. if t then some p else find_port_loop name ps) (str_neq-str_eq p.name name h.0)
    ∙ ap (λ o. if str_eq p.name name then some p else o) (find_port_loop-find_by_name name ps h.1)

fd_of :
    (name : Text) (ps : List PortDef)
    → get_fd_by_name name ps ≡ elim (find_by_name name ps) [ none ↦ minus_one | some p ↦ p.fd ]
unfolding get_fd_by_name find_by_name
fd_of name [] = refl
fd_of name (p ∷ ps) = ground (arith, fd_of name ps)

-- The three searches by name agree on a valid configuration: for a name that is not empty,
-- `config_find_port` with its `strncmp` finds the port that `port_find_by_name` finds with `strcmp`,
-- and `port_get_fd_by_name` returns that port's fd, or -1 if there is none.
pub find_port-find_by_name :
    (c : ℕ) (name : Text) (ps : List PortDef)
    → All (λ p. ShorterThan name_size p.name) ps
    → (find_port (c ∷ name) ps ≡ find_by_name (c ∷ name) ps)
      × (get_fd_by_name (c ∷ name) ps
          ≡ elim (find_by_name (c ∷ name) ps) [ none ↦ minus_one | some p ↦ p.fd ])
unfolding find_port
find_port-find_by_name c name ps h =
    (find_port_loop-find_by_name (c ∷ name) ps h, fd_of (c ∷ name) ps)
