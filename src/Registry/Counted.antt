-- ===== src/Registry/Counted.antt =====
-- How many entries are in use, and what a search by device id finds, from the searches by fd.
use embedded_device_forwarde.Prelude.{
  subst, ℕ, zero, suc, ◌+◌, ◌≤◌, ◌<◌, ◌≡◌, ◌≢◌, refl, ap, sym, ◌∙◌, List, [], ◌∷◌, Bool, true,
  false, Bool-cases, Option, Option-cases, none, some, some-injective, inl, inr, length, set, All,
  subst, arith, if◌then◌else◌,
}
use embedded_device_forwarde.Prelude.Int.{ℤ, int_eq_iff, int_eq_refl}
use embedded_device_forwarde.Prelude.Text.{Text, str_eq_iff}
use embedded_device_forwarde.Registry.Entry.{Entry}
use embedded_device_forwarde.Registry.Table.{
  holds_fd, holds_id, find_first, release_slot, beat_slot,
}
use embedded_device_forwarde.Registry.Invariant.{Distinct, clash, FreeAt, Unclaimed}
use embedded_device_forwarde.Registry.Owner.{registered}

pub registered-set :
    (es : List Entry) (i : ℕ) (e : Entry)
    → FreeAt es i
    → e.in_use ≡ true
    → registered (set es i e) ≡ suc (registered es)
unfolding registered
registered-set [] i e f u = absurd f
registered-set (x ∷ es) zero e f u = ground arith
registered-set (x ∷ es) (suc i) e f u = ground (arith, registered-set es i e f u)

-- 1 for an entry that is there, 0 for none.
abbrev pub one_if : Option Entry → ℕ
one_if none = 0
one_if (some e) = 1

pub registered-release_slot :
    (fd : ℤ) (es : List Entry)
    → registered (release_slot fd es).1 + one_if (find_first (holds_fd fd) es) ≡ registered es
unfolding registered release_slot find_first
registered-release_slot fd [] = refl
registered-release_slot fd (x ∷ es) = ground (arith, registered-release_slot fd es)

pub registered-beat_slot :
    (fd : ℤ) (now : ℕ) (es : List Entry) → registered (beat_slot fd now es).1 ≡ registered es
unfolding registered beat_slot
registered-beat_slot fd now [] = refl
registered-beat_slot fd now (x ∷ es) = ground (arith, registered-beat_slot fd now es)

registered-le : (es : List Entry) → registered es ≤ length es
unfolding registered
registered-le [] = omega arith
registered-le (x ∷ es) = ground (arith, registered-le es)

pub FreeAt-lt : (es : List Entry) (i : ℕ) → FreeAt es i → registered es < length es
unfolding registered
FreeAt-lt [] i f = absurd f
FreeAt-lt (x ∷ es) zero f = ground (arith, registered-le es)
FreeAt-lt (x ∷ es) (suc i) f = ground (arith, FreeAt-lt es i f)

pub lt-FreeAt : (es : List Entry) → registered es < length es → (i : ℕ) × FreeAt es i
unfolding registered
lt-FreeAt [] h = absurd (omega arith)
lt-FreeAt (x ∷ es) h = elim (Bool-cases x.in_use) [
  | inl b ↦ let later = lt-FreeAt es (ground arith) in (suc later.0, later.1)
  | inr b ↦ (0, b)
]

pub Unclaimed-find_first :
    (fd : ℤ) (id : Text) (es : List Entry)
    → Unclaimed fd id es
    → (find_first (holds_fd fd) es ≡ none) × (find_first (holds_id id) es ≡ none)
unfolding find_first
Unclaimed-find_first fd id [] u = (refl, refl)
Unclaimed-find_first fd id (x ∷ es) u =
    let rest = Unclaimed-find_first fd id es u.1 in (ground arith, ground arith)

pub find_first-Unclaimed :
    (fd : ℤ) (id : Text) (es : List Entry)
    → find_first (holds_fd fd) es ≡ none
    → find_first (holds_id id) es ≡ none
    → Unclaimed fd id es
unfolding find_first
find_first-Unclaimed fd id [] e k = tt
find_first-Unclaimed fd id (x ∷ es) e k =
    (ground arith, find_first-Unclaimed fd id es (ground arith) (ground arith))

-- What is found passes the test, and has what all entries have.
pub find_first-All :
    (P : Entry → Type 0) (p : Entry → Bool) (es : List Entry) (e : Entry)
    → find_first p es ≡ some e
    → All P es
    → (p e ≡ true) × P e
unfolding find_first
find_first-All P p [] e k h = absurd (cc k)
find_first-All P p (x ∷ es) e k h = choose (p x) refl k (λ later. find_first-All P p es e later h.1)
  where
    choose :
        (hit : Bool)
        → p x ≡ hit
        → (if hit then some x else find_first p es) ≡ some e
        → (find_first p es ≡ some e → (p e ≡ true) × P e)
        → (p e ≡ true) × P e
    choose true b k rest =
        (sym (ap p (some-injective x e k)) ∙ b, subst P (some-injective x e k) h.0)
    choose false b k rest = rest k

-- An entry that is found by its id is found by its fd, too.
pub find_first-id-fd :
    (id : Text) (es : List Entry) (e : Entry)
    → Distinct es
    → find_first (holds_id id) es ≡ some e
    → find_first (holds_fd e.client_fd) es ≡ some e
unfolding find_first
find_first-id-fd id [] e d k = absurd (cc k)
find_first-id-fd id (x ∷ es) e d k =
    choose (holds_id id x) refl k (λ later. find_first-id-fd id es e d.1 later)
  where
    Found : Type 0
    Found =
        (if holds_fd e.client_fd x then some x else find_first (holds_fd e.client_fd) es) ≡ some e

    choose :
        (hit : Bool)
        → holds_id id x ≡ hit
        → (if hit then some x else find_first (holds_id id) es) ≡ some e
        → (find_first (holds_id id) es ≡ some e → find_first (holds_fd e.client_fd) es ≡ some e)
        → Found
    choose true b k rest =
        ap (λ y. if holds_fd y.client_fd x then some x else find_first (holds_fd y.client_fd) es)
          (sym (some-injective x e k))
        ∙ ground (arith, b, int_eq_refl x.client_fd)
        ∙ k
    choose false b k rest =
        let at = find_first-All (λ y. clash x y ≡ false) (holds_id id) es e k d.0 in
        let other : holds_fd e.client_fd x ≡ false = ground (
          arith,
          at.0,
          at.1,
          int_eq_iff x.client_fd e.client_fd,
          int_eq_iff e.client_fd x.client_fd,
        ) in
        rw other (rest k)

-- No entry with the id is found by any fd exactly if none is found by the id.
pub find_first-id-none :
    (id : Text) (es : List Entry)
    → Distinct es
    → ((fd : ℤ) (e : Entry) → find_first (holds_fd fd) es ≡ some e → e.device_id ≢ id)
    → find_first (holds_id id) es ≡ none
find_first-id-none id es d h = elim (Option-cases (find_first (holds_id id) es)) [
  | inl e ↦ e
  | inr (e, k) ↦
      let at = find_first-All (λ y. Unit {0}) (holds_id id) es e k (all_unit es) in
      let same : e.device_id ≡ id = ground (arith, at.0, str_eq_iff e.device_id id) in
      absurd (h e.client_fd e (find_first-id-fd id es e d k) same)
]
  where
    all_unit : (es : List Entry) → All (λ y. Unit {0}) es
    all_unit [] = tt
    all_unit (x ∷ es) = (tt, all_unit es)

find_first-none-All :
    (p : Entry → Bool) (es : List Entry) → find_first p es ≡ none → All (λ y. p y ≡ false) es
unfolding find_first
find_first-none-All p [] n = tt
find_first-none-All p (x ∷ es) n = (ground arith, find_first-none-All p es (ground arith))

pub find_first-none-id :
    (id : Text) (es : List Entry)
    → find_first (holds_id id) es ≡ none
    → (fd : ℤ) (e : Entry) → find_first (holds_fd fd) es ≡ some e
    → e.device_id ≢ id
find_first-none-id id es n fd e k same =
    let at =
      find_first-All (λ y. holds_id id y ≡ false) (holds_fd fd) es e k
        (find_first-none-All (holds_id id) es n) in
    ground (arith, at.0, at.1, same, str_eq_iff e.device_id id)
