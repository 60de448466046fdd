-- ===== src/Registry/Owner.antt =====
-- The entries of one client: what registering, heartbeats and the end of its connection do to a
-- table in which nobody else holds an entry.
use embedded_device_forwarde.Prelude.{
  ℕ, zero, suc, ◌+◌, ◌≤◌, ◌≡◌, refl, ap, sym, subst, List, [], ◌∷◌, true, false, Option,
  Option-cases, none, some, set, replicate, All, arith, if◌then◌else◌, Bool-cases, inl, inr,
}
use embedded_device_forwarde.Prelude.Int.{ℤ, int_eq_iff}
use embedded_device_forwarde.Json.{Cjson}
use embedded_device_forwarde.Registry.Entry.{Entry, free_entry, zeroed, max_subprocs}
use embedded_device_forwarde.Registry.Parse.{parse_register_json}
use embedded_device_forwarde.Registry.Table.{
  init, Scan, Registry, scan, fd_taken, id_taken, first_free, stored, claim, release_slot,
  unregister, beat_slot, update_heartbeat, register,
}
use embedded_device_forwarde.Registry.Invariant.{
  init_done, init_fresh, init_fresh-IsValid, claim-IsValid, update_heartbeat-IsValid,
  unregister-IsValid, IsValid, Distinct, clash,
}

-- Only this client holds entries, or none does.
abbrev pub OnlyOf : Option ℤ → Entry → Type 0
OnlyOf none e = e.in_use ≡ false
OnlyOf (some fd) e = e.in_use ≡ true → e.client_fd ≡ fd

-- How many subprograms are registered.
unfoldable pub registered : List Entry → ℕ
registered [] = 0
registered (e ∷ es) = (if e.in_use then 1 else 0) + registered es

-- No entry clashes with one that the client holds.
alone :
    (fd : ℤ) (x : Entry) (es : List Entry)
    → x.in_use ≡ true
    → x.client_fd ≡ fd
    → All (λ b. clash x b ≡ false) es
    → All (OnlyOf (some fd)) es
    → All (OnlyOf none) es
alone fd x [] u e d h = tt
alone fd x (b ∷ es) u e d h =
    (ground (arith, h.0, int_eq_iff b.client_fd x.client_fd), alone fd x es u e d.1 h.1)

pub registered-none : (es : List Entry) → All (OnlyOf none) es → registered es ≡ 0
unfolding registered
registered-none [] h = refl
registered-none (e ∷ es) h = ground (arith, registered-none es h.1)

pub registered-le-one :
    (fd : ℤ) (es : List Entry) → Distinct es → All (OnlyOf (some fd)) es → registered es ≤ 1
unfolding registered
registered-le-one fd [] d h = omega arith
registered-le-one fd (e ∷ es) d h = elim (Bool-cases e.in_use) [
  | inl b ↦ rw b (omega (arith, registered-none es (alone fd e es b (h.0 b) d.0 h.1)))
  | inr b ↦ rw b (omega (arith, registered-le-one fd es d.1 h.1))
]

release_slot-OnlyOf :
    (fd : ℤ) (es : List Entry)
    → Distinct es
    → All (OnlyOf (some fd)) es
    → All (OnlyOf none) (release_slot fd es).1
unfolding release_slot
release_slot-OnlyOf fd [] d h = tt
release_slot-OnlyOf fd (x ∷ es) d h = elim (Bool-cases x.in_use) [
  | inl b ↦ ground (arith, h.0 b, int_eq_iff x.client_fd fd, alone fd x es b (h.0 b) d.0 h.1)
  | inr b ↦ ground (arith, release_slot-OnlyOf fd es d.1 h.1)
]

beat_slot-OnlyOf :
    (o : Option ℤ) (fd : ℤ) (now : ℕ) (es : List Entry)
    → All (OnlyOf o) es
    → All (OnlyOf o) (beat_slot fd now es).1
unfolding beat_slot
beat_slot-OnlyOf o fd now [] h = tt
beat_slot-OnlyOf none fd now (x ∷ es) h = ground (arith, beat_slot-OnlyOf none fd now es h.1)
beat_slot-OnlyOf (some c) fd now (x ∷ es) h =
    ground (arith, beat_slot-OnlyOf (some c) fd now es h.1)

set-OnlyOf :
    (fd : ℤ) (now : ℕ) (e : Entry) (es : List Entry) (i : ℕ)
    → All (OnlyOf (some fd)) es
    → All (OnlyOf (some fd)) (set es i (stored fd now e))
set-OnlyOf fd now e [] i h = tt
set-OnlyOf fd now e (x ∷ es) zero h = (λ u. refl, h.1)
set-OnlyOf fd now e (x ∷ es) (suc i) h = (h.0, set-OnlyOf fd now e es i h.1)

OnlyOf-some : (fd : ℤ) (es : List Entry) → All (OnlyOf none) es → All (OnlyOf (some fd)) es
OnlyOf-some fd [] h = tt
OnlyOf-some fd (e ∷ es) h = (λ u. absurd (cc (h.0, u)), OnlyOf-some fd es h.1)

replicate-OnlyOf : (n : ℕ) → All (OnlyOf none) (replicate n free_entry)
replicate-OnlyOf zero = tt
replicate-OnlyOf (suc n) = (refl, replicate-OnlyOf n)

-- A registry that has been initialised, in which this client holds entries, or nobody does.
pub record OwnedBy (o : Option ℤ) (r : Registry) : Type 0 where
  pub valid : IsValid r
  pub started : r.inited ≡ true
  pub only : All (OnlyOf o) r.table

claim-OwnedBy :
    (fd : ℤ) (parsed : Entry) (now : ℕ) (r : Registry)
    → OwnedBy (some fd) r
    → OwnedBy (some fd) (claim fd parsed now r).1
unfolding claim
claim-OwnedBy fd parsed now r v =
    go (scan fd parsed.device_id 0 none r.table) refl (claim-IsValid fd parsed now r v.valid)
  where
    go :
        (s : Scan)
        → scan fd parsed.device_id 0 none r.table ≡ s
        → IsValid (claim fd parsed now r).1
        → OwnedBy (some fd) (claim fd parsed now r).1
    go fd_taken e w = rw (e, claim) v
    go id_taken e w = rw (e, claim) v
    go (first_free none) e w = rw (e, claim) v
    go (first_free (some i)) e w = record {
      valid = w;
      started = rw (e, claim) v.started;
      only = rw (e, claim) (set-OnlyOf fd now parsed r.table i v.only);
    }

pub register-OwnedBy :
    (cjson : Cjson) (fd : ℤ) (json : List ℕ) (json_len now : ℕ) (r : Registry)
    → OwnedBy (some fd) r
    → OwnedBy (some fd) (register cjson fd json json_len now r).1
unfolding register
register-OwnedBy cjson fd json json_len now r v =
    let same : OwnedBy (some fd) (init r) =
      subst (OwnedBy (some fd)) (sym (init_done r v.started)) v in
    elim (Option-cases (parse_register_json cjson json json_len zeroed)) [
      | inl bad ↦ rw (bad, register) same
      | inr (parsed, good) ↦ rw (good, register) (claim-OwnedBy fd parsed now (init r) same)
    ]

pub update_heartbeat-OwnedBy :
    (o : Option ℤ) (fd : ℤ) (now : ℕ) (r : Registry)
    → OwnedBy o r
    → OwnedBy o (update_heartbeat fd now r).1
unfolding update_heartbeat
update_heartbeat-OwnedBy o fd now r v = record {
  valid = update_heartbeat-IsValid fd now r v.valid;
  started = ground (arith, v.started);
  only = rw v.started (beat_slot-OnlyOf o fd now r.table v.only);
}

-- The end of the client's connection leaves the registry empty.
pub unregister-OwnedBy :
    (fd : ℤ) (r : Registry) → OwnedBy (some fd) r → OwnedBy none (unregister fd r).1
unfolding unregister
unregister-OwnedBy fd r v = record {
  valid = unregister-IsValid fd r v.valid;
  started = ground (arith, v.started);
  only = rw v.started (release_slot-OnlyOf fd r.table v.valid.distinct v.only);
}

-- A client that connects while nobody holds an entry.
pub OwnedBy-some : (fd : ℤ) (r : Registry) → OwnedBy none r → OwnedBy (some fd) r
OwnedBy-some fd r v = record {
  valid = v.valid;
  started = v.started;
  only = OnlyOf-some fd r.table v.only;
}

pub init_fresh-OwnedBy : (r : Registry) → r.inited ≡ false → OwnedBy none (init r)
init_fresh-OwnedBy r fresh = record {
  valid = init_fresh-IsValid r fresh;
  started = ap (λ q. q.inited) (init_fresh r fresh);
  only =
      subst (λ q. All (OnlyOf none) q.table) (sym (init_fresh r fresh))
        (replicate-OnlyOf max_subprocs);
}
