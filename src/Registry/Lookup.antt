-- ===== src/Registry/Lookup.antt =====
-- The registry as the map from fds to entries that `registry_find_by_fd` shows: what each operation
-- does to it, at the fd of the call and at every other.
use mathlib.Core.Option
use embedded_device_forwarde.Prelude.{
  ℕ, zero, suc, ◌≡◌, refl, List, [], ◌∷◌, true, false, Option, none, some, arith, set, All,
  if◌then◌else◌,
}
use embedded_device_forwarde.Prelude.Int.{ℤ, pos, minus_one, int_eq, int_eq_iff}
use embedded_device_forwarde.Prelude.Text.{Text}
use embedded_device_forwarde.Registry.Entry.{Entry}
use embedded_device_forwarde.Registry.Table.{
  Registry, holds_fd, find_first, find_by_fd, stored, release_slot, beat_slot, unregister,
  update_heartbeat,
}
use embedded_device_forwarde.Registry.Invariant.{IsValid, Distinct, clash, FreeAt, Unclaimed}

-- An entry after a heartbeat.
abbrev pub beaten : ℕ → Entry → Entry
beaten now e = record e { last_heartbeat_ms = now }

-- 0 for an entry that is there, -1 for none.
abbrev pub found_code : Option Entry → ℤ
found_code none = minus_one
found_code (some e) = pos 0

-- With no entry of the fd, there is none to find.
pub find_first-set-FreeAt :
    (fd fd' : ℤ) (now : ℕ) (id : Text) (e : Entry) (es : List Entry) (i : ℕ)
    → Unclaimed fd id es
    → FreeAt es i
    → find_first (holds_fd fd') (set es i (stored fd now e))
      ≡ (if int_eq fd fd' then some (stored fd now e) else find_first (holds_fd fd') es)
unfolding find_first
find_first-set-FreeAt fd fd' now id e [] i u f = absurd f
find_first-set-FreeAt fd fd' now id e (x ∷ es) zero u f = ground arith
find_first-set-FreeAt fd fd' now id e (x ∷ es) (suc i) u f = ground (
  arith,
  find_first-set-FreeAt fd fd' now id e es i u.1 f,
  int_eq_iff fd fd',
  int_eq_iff x.client_fd fd,
  int_eq_iff x.client_fd fd',
)

-- Where `x` clashes with nobody, no other entry holds its fd.
find_first-none :
    (x : Entry) (fd : ℤ) (es : List Entry)
    → holds_fd fd x ≡ true
    → All (λ b. clash x b ≡ false) es
    → find_first (holds_fd fd) es ≡ none
unfolding find_first
find_first-none x fd [] h c = refl
find_first-none x fd (b ∷ es) h c = ground (
  arith,
  find_first-none x fd es h c.1,
  int_eq_iff x.client_fd fd,
  int_eq_iff b.client_fd fd,
  int_eq_iff b.client_fd x.client_fd,
)

pub find_first-release_slot :
    (fd fd' : ℤ) (es : List Entry)
    → Distinct es
    → find_first (holds_fd fd') (release_slot fd es).1
      ≡ (if int_eq fd fd' then none else find_first (holds_fd fd') es)
unfolding find_first release_slot
find_first-release_slot fd fd' [] d = ground arith
find_first-release_slot fd fd' (x ∷ es) d = ground (
  arith,
  find_first-release_slot fd fd' es d.1,
  find_first-none x fd es,
  int_eq_iff fd fd',
  int_eq_iff x.client_fd fd,
  int_eq_iff x.client_fd fd',
)

pub find_first-beat_slot :
    (fd fd' : ℤ) (now : ℕ) (es : List Entry)
    → find_first (holds_fd fd') (beat_slot fd now es).1 ≡ (
        if int_eq fd fd'
        then Option.map (beaten now) (find_first (holds_fd fd') es)
        else find_first (holds_fd fd') es)
unfolding find_first beat_slot
find_first-beat_slot fd fd' now [] = ground arith
find_first-beat_slot fd fd' now (x ∷ es) = ground (
  arith,
  find_first-beat_slot fd fd' now es,
  int_eq_iff fd fd',
  int_eq_iff x.client_fd fd,
  int_eq_iff x.client_fd fd',
)

-- After `registry_unregister(fd)` nobody holds the fd, and every other fd is found as before.
pub find_by_fd-unregister :
    (fd fd' : ℤ) (r : Registry)
    → IsValid r
    → find_by_fd fd' (unregister fd r).1 ≡ (if int_eq fd fd' then none else find_by_fd fd' r)
unfolding find_by_fd unregister
find_by_fd-unregister fd fd' r v = ground (arith, find_first-release_slot fd fd' r.table v.distinct)

-- A heartbeat changes the time of the fd's entry and nothing else of it, and no other entry.
pub find_by_fd-update_heartbeat :
    (fd fd' : ℤ) (now : ℕ) (r : Registry)
    → find_by_fd fd' (update_heartbeat fd now r).1
      ≡ (if int_eq fd fd' then Option.map (beaten now) (find_by_fd fd' r) else find_by_fd fd' r)
unfolding find_by_fd update_heartbeat
find_by_fd-update_heartbeat fd fd' now r = ground (arith, find_first-beat_slot fd fd' now r.table)

release_slot-result :
    (fd : ℤ) (es : List Entry) → (release_slot fd es).0 ≡ found_code (find_first (holds_fd fd) es)
unfolding release_slot find_first
release_slot-result fd [] = refl
release_slot-result fd (x ∷ es) = ground (arith, release_slot-result fd es)

beat_slot-result :
    (fd : ℤ) (now : ℕ) (es : List Entry)
    → (beat_slot fd now es).0 ≡ found_code (find_first (holds_fd fd) es)
unfolding beat_slot find_first
beat_slot-result fd now [] = refl
beat_slot-result fd now (x ∷ es) = ground (arith, beat_slot-result fd now es)

-- `registry_unregister` and `registry_update_heartbeat` return 0 exactly for an fd that
-- `registry_find_by_fd` finds, and -1 for any other.
pub result-find_by_fd :
    (fd : ℤ) (now : ℕ) (r : Registry)
    → ((unregister fd r).0 ≡ found_code (find_by_fd fd r))
      × ((update_heartbeat fd now r).0 ≡ found_code (find_by_fd fd r))
unfolding unregister update_heartbeat find_by_fd
result-find_by_fd fd now r =
    ground (arith, release_slot-result fd r.table, beat_slot-result fd now r.table)
