-- ===== src/Registry/Invariant.antt =====
-- The table's invariant: 32 slots, and no two used ones share an fd or a device id.
use embedded_device_forwarde.Prelude.{
  sym, subst, ◌∙◌, Option-cases, inr, inl, Bool-cases, ℕ, zero, suc, ◌+◌, ◌≡◌, refl, List, [], ◌∷◌,
  Bool, true, false, ◌&&◌, ◌||◌, Option, none, some, arith, length, set, replicate, All,
  if◌then◌else◌, length-set, length-replicate,
}
use embedded_device_forwarde.Prelude.Int.{ℤ, int_eq_iff}
use embedded_device_forwarde.Prelude.Text.{Text, str_eq_iff}
use embedded_device_forwarde.Json.{Cjson}
use embedded_device_forwarde.Registry.Entry.{zeroed, Entry, free_entry, max_subprocs}
use embedded_device_forwarde.Registry.Parse.{parse_register_json}
use embedded_device_forwarde.Registry.Table.{
  Registry, holds_fd, holds_id, init, Scan, scan, fd_taken, id_taken, first_free, stored, claim,
  release_slot, beat_slot, register, unregister, update_heartbeat, or_index,
}

-- Two used entries with one fd, or with one device id.
abbrev pub clash : Entry → Entry → Bool
clash a b = a.in_use && (holds_fd a.client_fd b || holds_id a.device_id b)

abbrev pub Distinct : List Entry → Type 0
Distinct [] = Unit {0}
Distinct (e ∷ es) = All (λ b. clash e b ≡ false) es × Distinct es

pub record IsValid (r : Registry) : Type 0 where
  pub slots : r.inited ≡ true → length r.table ≡ max_subprocs
  pub distinct : Distinct r.table

-- A slot, by its index, that is free.
abbrev pub FreeAt : List Entry → ℕ → Type 0
FreeAt [] i = ⊥
FreeAt (e ∷ es) zero = e.in_use ≡ false
FreeAt (e ∷ es) (suc i) = FreeAt es i

-- No used entry has this fd or this id.
abbrev pub Unclaimed : ℤ → Text → List Entry → Type 0
Unclaimed fd id = All (λ e. (holds_fd fd e || holds_id id e) ≡ false)

pub scan-Unclaimed :
    (fd : ℤ) (id : Text) (i : ℕ) (free : Option ℕ) (es : List Entry) (found : Option ℕ)
    → scan fd id i free es ≡ first_free found
    → Unclaimed fd id es
unfolding scan
scan-Unclaimed fd id i free [] found e = tt
scan-Unclaimed fd id i free (x ∷ es) found e =
    ground
      (arith, scan-Unclaimed fd id (suc i) (if x.in_use then free else or_index free i) es found)

scan_kept :
    (fd : ℤ) (id : Text) (i m : ℕ) (es : List Entry) (found : Option ℕ)
    → scan fd id i (some m) es ≡ first_free found
    → found ≡ some m
unfolding scan
scan_kept fd id i m [] found e = ground arith
scan_kept fd id i m (x ∷ es) found e = ground (arith, scan_kept fd id (suc i) m es found)

-- The free slot that a scan finds, by its distance from the scan's start.
pub scan-FreeAt :
    (fd : ℤ) (id : Text) (i : ℕ) (es : List Entry) {k : ℕ}
    → scan fd id i none es ≡ first_free (some k)
    → (j : ℕ) × (k ≡ i + j) × FreeAt es j
unfolding scan
scan-FreeAt fd id i [] e = cc
scan-FreeAt fd id i (x ∷ es) {k} e = elim (Bool-cases x.in_use) [
  | inl used ↦
      let (j, kj, at) = scan-FreeAt fd id (suc i) es {k = k} (ground arith) in
      (suc j, omega arith, at)
  | inr unused ↦ (0, ground (arith, scan_kept fd id (suc i) i es (some k)), unused)
]

-- A table grows by an entry that clashes with none of it.
clash-stored :
    (fd : ℤ) (now : ℕ) (e b : Entry)
    → (holds_fd fd b || holds_id e.device_id b) ≡ false
    → (clash (stored fd now e) b ≡ false) × (clash b (stored fd now e) ≡ false)
clash-stored fd now e b h = ground (
  arith,
  int_eq_iff b.client_fd fd,
  int_eq_iff fd b.client_fd,
  str_eq_iff b.device_id e.device_id,
  str_eq_iff e.device_id b.device_id,
)

Unclaimed-clash :
    (fd : ℤ) (now : ℕ) (e : Entry) (es : List Entry)
    → Unclaimed fd e.device_id es
    → All (λ b. clash (stored fd now e) b ≡ false) es
Unclaimed-clash fd now e [] u = tt
Unclaimed-clash fd now e (b ∷ es) u =
    ((clash-stored fd now e b u.0).0, Unclaimed-clash fd now e es u.1)

All-set {ℓ} :
    {A : Type ℓ} (P : A → Type 0) (xs : List A) (i : ℕ) (v : A)
    → All P xs
    → P v
    → All P (set xs i v)
All-set P [] i v h p = tt
All-set P (x ∷ xs) zero v h p = (p, h.1)
All-set P (x ∷ xs) (suc i) v h p = (h.0, All-set P xs i v h.1 p)

set-Distinct :
    (fd : ℤ) (now : ℕ) (e : Entry) (es : List Entry) (i : ℕ)
    → Unclaimed fd e.device_id es
    → Distinct es
    → Distinct (set es i (stored fd now e))
set-Distinct fd now e [] i u d = tt
set-Distinct fd now e (x ∷ es) zero u d = (Unclaimed-clash fd now e es u.1, d.1)
set-Distinct fd now e (x ∷ es) (suc i) u d = (
  All-set (λ b. clash x b ≡ false) es i (stored fd now e) d.0 (clash-stored fd now e x u.0).1,
  set-Distinct fd now e es i u.1 d.1,
)

clash-free : (e : Entry) → clash e free_entry ≡ false
clash-free e = ground arith

replicate-Distinct : (n : ℕ) → Distinct (replicate n free_entry)
replicate-Distinct zero = tt
replicate-Distinct (suc n) = (go n, replicate-Distinct n)
  where
    go : (n : ℕ) → All (λ b. clash free_entry b ≡ false) (replicate n free_entry)
    go zero = tt
    go (suc n) = (refl, go n)

length-release_slot : (fd : ℤ) (es : List Entry) → length (release_slot fd es).1 ≡ length es
unfolding release_slot
length-release_slot fd [] = refl
length-release_slot fd (e ∷ es) = ground (arith, length-release_slot fd es)

release_slot-All :
    (e : Entry) (fd : ℤ) (es : List Entry)
    → All (λ b. clash e b ≡ false) es
    → All (λ b. clash e b ≡ false) (release_slot fd es).1
unfolding release_slot
release_slot-All e fd [] h = tt
release_slot-All e fd (x ∷ es) h = ground (arith, release_slot-All e fd es h.1, clash-free e)

free_entry-All : (es : List Entry) → All (λ b. clash free_entry b ≡ false) es
free_entry-All [] = tt
free_entry-All (x ∷ es) = (refl, free_entry-All es)

release_slot-Distinct : (fd : ℤ) (es : List Entry) → Distinct es → Distinct (release_slot fd es).1
unfolding release_slot
release_slot-Distinct fd [] d = tt
release_slot-Distinct fd (x ∷ es) d =
    ground (arith, release_slot-Distinct fd es d.1, release_slot-All x fd es d.0, free_entry-All es)

length-beat_slot : (fd : ℤ) (now : ℕ) (es : List Entry) → length (beat_slot fd now es).1 ≡ length es
unfolding beat_slot
length-beat_slot fd now [] = refl
length-beat_slot fd now (e ∷ es) = ground (arith, length-beat_slot fd now es)

beat_slot-All :
    (e : Entry) (fd : ℤ) (now : ℕ) (es : List Entry)
    → All (λ b. clash e b ≡ false) es
    → All (λ b. clash e b ≡ false) (beat_slot fd now es).1
unfolding beat_slot
beat_slot-All e fd now [] h = tt
beat_slot-All e fd now (x ∷ es) h = ground (arith, beat_slot-All e fd now es h.1)

beat_slot-Distinct :
    (fd : ℤ) (now : ℕ) (es : List Entry) → Distinct es → Distinct (beat_slot fd now es).1
unfolding beat_slot
beat_slot-Distinct fd now [] d = tt
beat_slot-Distinct fd now (x ∷ es) d =
    ground (arith, beat_slot-Distinct fd now es d.1, beat_slot-All x fd now es d.0)

pub init_done : (r : Registry) → r.inited ≡ true → init r ≡ r
unfolding init
init_done r e = ground arith

pub init_fresh :
    (r : Registry)
    → r.inited ≡ false
    → init r ≡ record { table = replicate max_subprocs free_entry; inited = true }
unfolding init
init_fresh r e = ground arith

-- The first initialisation leaves a valid table, whatever was there.
pub init_fresh-IsValid : (r : Registry) → r.inited ≡ false → IsValid (init r)
init_fresh-IsValid r fresh = subst IsValid (sym (init_fresh r fresh)) (record {
  slots = λ e. length-replicate max_subprocs free_entry;
  distinct = replicate-Distinct max_subprocs;
})

init-IsValid : (r : Registry) → IsValid r → IsValid (init r)
init-IsValid r v = elim (Bool-cases r.inited) [
  | inl done ↦ subst IsValid (sym (init_done r done)) v
  | inr fresh ↦ init_fresh-IsValid r fresh
]

pub claim-IsValid :
    (fd : ℤ) (parsed : Entry) (now : ℕ) (r : Registry)
    → IsValid r
    → IsValid (claim fd parsed now r).1
unfolding claim
claim-IsValid fd parsed now r v = go (scan fd parsed.device_id 0 none r.table) refl
  where
    go :
        (s : Scan) → scan fd parsed.device_id 0 none r.table ≡ s → IsValid (claim fd parsed now r).1
    go fd_taken e = rw (e, claim) v
    go id_taken e = rw (e, claim) v
    go (first_free none) e = rw (e, claim) v
    go (first_free (some i)) e =
        rw (e, claim)
          (record {
            slots = λ k. length-set r.table i (stored fd now parsed) ∙ v.slots k;
            distinct =
                set-Distinct fd now parsed r.table i
                  (scan-Unclaimed fd parsed.device_id 0 none r.table (some i) e) v.distinct;
          })

-- Registration keeps the table at 32 slots, with no two used slots sharing an fd or a device id,
-- whatever the frame says and whether or not it is accepted.
pub register-IsValid :
    (cjson : Cjson) (fd : ℤ) (json : List ℕ) (json_len now : ℕ) (r : Registry)
    → IsValid r
    → IsValid (register cjson fd json json_len now r).1
unfolding register
register-IsValid cjson fd json json_len now r v =
    elim (Option-cases (parse_register_json cjson json json_len zeroed)) [
      | inl bad ↦ rw (bad, register) (init-IsValid r v)
      | inr (parsed, good) ↦
          rw (good, register) (claim-IsValid fd parsed now (init r) (init-IsValid r v))
    ]

-- So do the removal of a client and a heartbeat.
pub unregister-IsValid : (fd : ℤ) (r : Registry) → IsValid r → IsValid (unregister fd r).1
unfolding unregister
unregister-IsValid fd r v =
    ground
      (arith, v.slots, length-release_slot fd r.table, release_slot-Distinct fd r.table v.distinct)

pub update_heartbeat-IsValid :
    (fd : ℤ) (now : ℕ) (r : Registry) → IsValid r → IsValid (update_heartbeat fd now r).1
unfolding update_heartbeat
update_heartbeat-IsValid fd now r v =
    ground (arith, length-beat_slot fd now r.table, beat_slot-Distinct fd now r.table v.distinct)
