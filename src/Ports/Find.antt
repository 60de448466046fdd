-- ===== src/Ports/Find.antt =====
-- What `port_find` finds, also after `reactor_add_port`.
use embedded_device_forwarde.Prelude.{
  ◌∙◌, sym, ap, ◌≡◌, refl, List, [], ◌∷◌, Bool, true, false, Option, none, some, if◌then◌else◌, All,
  ◌⊎◌, inl, inr,
}
use embedded_device_forwarde.Prelude.Text.{Text, str_eq, str_eq_iff}
use embedded_device_forwarde.Config.Types.{Port, is_server}
use embedded_device_forwarde.Ports.Table.{Slot, pick, port_find}

-- A used slot of the table points to the port.
unfoldable pub Holds : Port → List Slot → Type 0
Holds p [] = ⊥
Holds p (s ∷ ss) = ((s.used ≡ true) × (s.port ≡ some p)) ⊎ Holds p ss

-- If the slot is used, its port has another name or is a server.
abbrev pub Unfit : Text → Slot → Type 0
Unfit name s =
    (p : Port) → s.used ≡ true → s.port ≡ some p → p.name ≡ name → is_server p.kind ≡ true

-- What the result of a search says of the table.
unfoldable pub Found : Text → List Slot → Option Port → Type 0
unfolding Holds
Found name ss none = All (Unfit name) ss
Found name ss (some p) = Holds p ss × (p.name ≡ name) × (is_server p.kind ≡ false)

server_of : Option Port → Bool
server_of none = false
server_of (some p) = is_server p.kind

named_so : Text → Option Port → Bool
named_so name none = false
named_so name (some p) = str_eq p.name name

Found-cons :
    (name : Text) (s : Slot) (ss : List Slot) (o : Option Port)
    → Unfit name s
    → Found name ss o
    → Found name (s ∷ ss) o
unfolding Found Holds
Found-cons name s ss none u f = (u, f)
Found-cons name s ss (some p) u f = (inr f.0, f.1, f.2)

choose-Found :
    (name : Text) (s : Slot) (ss : List Slot) (p : Port) (rest : Option Port) (named server : Bool)
    → s.used ≡ true
    → s.port ≡ some p
    → str_eq p.name name ≡ named
    → is_server p.kind ≡ server
    → Found name ss rest
    → Found name (s ∷ ss) (if named then if server then rest else some p else rest)
unfolding Found Holds server_of named_so
choose-Found name s ss p rest true true eu eo en es f =
    Found-cons name s ss rest (λ q used port same. ap (λ o. server_of o) (sym port ∙ eo) ∙ es) f
choose-Found name s ss p rest true false eu eo en es f =
    (inl (eu, eo), (str_eq_iff p.name name).0 en, es)
choose-Found name s ss p rest false server eu eo en es f =
    Found-cons name s ss rest
      (λ q used port same.
        let other = ap (λ o. named_so name o) (sym port ∙ eo) ∙ en in
        absurd (cc (other, (str_eq_iff q.name name).1 same)))
      f

pick-Found :
    (name : Text) (s : Slot) (ss : List Slot) (u : Bool) (o rest : Option Port)
    → s.used ≡ u
    → s.port ≡ o
    → Found name ss rest
    → Found name (s ∷ ss) (pick name u o rest)
unfolding pick Found Holds
pick-Found name s ss false o rest eu eo f = Found-cons name s ss rest (λ p used. absurd cc) f
pick-Found name s ss true none rest eu eo f = Found-cons name s ss rest (λ p used port. absurd cc) f
pick-Found name s ss true (some p) rest eu eo f =
    choose-Found name s ss p rest (str_eq p.name name) (is_server p.kind) eu eo refl refl f

-- The search by name returns a port of the table that has the name and is not a server, and it
-- returns none only if the table has no such port.
pub port_find_lem : (name : Text) (ss : List Slot) → Found name ss (port_find name ss)
unfolding port_find Found
port_find_lem name [] = tt
port_find_lem name (s ∷ ss) =
    pick-Found name s ss s.used s.port (port_find name ss) refl refl (port_find_lem name ss)
