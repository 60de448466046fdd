-- ===== src/Ports/Add.antt =====
-- `reactor_add_port`, and what `port_find` finds after it.
use embedded_device_forwarde.Prelude.{
  ◌≡◌, refl, ◌∙◌, ap, sym, List, [], ◌∷◌, Bool, true, false, Option, none, some, if◌then◌else◌,
  Bool-cases, inl, inr,
}
use embedded_device_forwarde.Prelude.Text.{Text, str_eq, str_eq_refl}
use embedded_device_forwarde.Config.Types.{Port, is_server}
use embedded_device_forwarde.Ports.Table.{Slot, pick, port_find, entry, put}

-- A slot of the table is not in use.
unfoldable pub has_free : List Slot → Bool
has_free [] = false
has_free (s ∷ ss) = let rest = has_free ss in if s.used then rest else true

pass :
    (named server : Bool) (p : Port) (rest : Option Port)
    → (if named then if server then rest else some p else rest) ≡ none
    → (rest ≡ none)
      × ((other : Option Port)
          → (if named then if server then other else some p else other) ≡ other)
pass true true p rest e = (e, λ other. refl)
pass true false p rest e = absurd (cc e)
pass false server p rest e = (e, λ other. refl)

pick-none :
    (name : Text) (u : Bool) (o rest : Option Port)
    → pick name u o rest ≡ none
    → (rest ≡ none) × ((other : Option Port) → pick name u o other ≡ other)
unfolding pick
pick-none name false o rest e = (e, λ other. refl)
pick-none name true none rest e = (e, λ other. refl)
pick-none name true (some p) rest e = pass (str_eq p.name name) (is_server p.kind) p rest e

pick_self :
    (p : Port) (rest : Option Port)
    → is_server p.kind ≡ false
    → pick p.name true (some p) rest ≡ some p
unfolding pick
pick_self p rest e =
    ap (λ t. if t then if is_server p.kind then rest else some p else rest) (str_eq_refl p.name)
    ∙ ap (λ t. if t then rest else some p) e

pub port_find-put :
    (p : Port) (ss : List Slot)
    → is_server p.kind ≡ false
    → has_free ss ≡ true
    → port_find p.name ss ≡ none
    → port_find p.name (put p ss) ≡ some p
unfolding has_free port_find put
port_find-put p [] es ef en = absurd (cc ef)
port_find-put p (s ∷ ss) es ef en = elim (Bool-cases s.used) [
  | inl b ↦
      let skip = pick-none p.name s.used s.port (port_find p.name ss) en in
      ap (λ t. port_find p.name (if t then s ∷ put p ss else entry p ∷ ss)) b
      ∙ skip.1 (port_find p.name (put p ss))
      ∙ port_find-put p ss es (ap (λ t. if t then has_free ss else true) (sym b) ∙ ef) skip.0
  | inr b ↦
      ap (λ t. port_find p.name (if t then s ∷ put p ss else entry p ∷ ss)) b
      ∙ pick_self p (port_find p.name ss) es
]
