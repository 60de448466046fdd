-- ===== src/Supervisor/Children.antt =====
-- supervisor.c: the child table and `supervisor_spawn`. The lock is released between the choice of
-- a slot and its use, so the spawn is two critical sections with a fork between them, and what
-- other threads do to the table meanwhile is an argument.
use mathlib.Core.Option
use embedded_device_forwarde.Prelude.{
  ℕ, zero, suc, ◌+◌, ◌-◌, List, [], ◌∷◌, Bool, true, false, Option, none, some, if◌then◌else◌, take,
  set, replicate,
}
use embedded_device_forwarde.Prelude.Int.{ℤ, pos, minus_one}
use embedded_device_forwarde.Prelude.Text.{Text}

abbrev pub max_children : ℕ
max_children = 32

abbrev pub name_len : ℕ
name_len = 64

-- `sup_child_t`.
pub record Child : Type 0 where
  pub in_use : Bool
  pub pid : ℕ
  pub spawn_ms : ℕ
  pub name : Text

abbrev pub no_child : Child
no_child = record { in_use = false; pid = 0; spawn_ms = 0; name = [] }

-- `g_children` and `g_inited`.
pub record Supervisor : Type 0 where
  pub children : List Child
  pub inited : Bool

unfoldable pub init : Supervisor → Supervisor
init s =
    if s.inited then s else record { children = replicate max_children no_child; inited = true }

-- The loops that look for a slot: the index of the first child that is not in use.
unfoldable pub free_child : List Child → Option ℕ
free_child [] = none
free_child (c ∷ cs) = let rest = Option.map suc (free_child cs) in if c.in_use then rest else some 0

-- Whether the slot is in use; there is none out of range.
unfoldable pub used_at : ℕ → List Child → Bool
used_at i [] = false
used_at zero (c ∷ cs) = c.in_use
used_at (suc i) (c ∷ cs) = used_at i cs

-- What `fork` returns to the parent.
pub data Fork : Type 0 where
  fork_failed : Fork
  forked : ℕ → Fork

-- The result of a spawn, the table after it, and the pid that was killed, if any.
pub record Spawned : Type 0 where
  pub result : ℤ
  pub children : List Child
  pub killed : Option ℕ

abbrev pub gone : List Child → Spawned
gone cs = record { result = minus_one; children = cs; killed = none }

-- The entry of a new child; `strncpy` and the NUL keep 63 bytes of the name.
abbrev pub new_child : Text → ℕ → ℕ → Child
new_child name pid now = record {
  in_use = true;
  pid = pid;
  spawn_ms = now;
  name = take (name_len - 1) name;
}

-- The slot to use: the one that was chosen, or another if it has been taken meanwhile.
unfoldable pub final_slot : ℕ → List Child → Option ℕ
final_slot slot cs = if used_at slot cs then free_child cs else some slot

-- The second critical section; a child that finds no slot is killed.
unfoldable pub commit_at : Text → ℕ → ℕ → Option ℕ → List Child → Spawned
commit_at name pid now none cs = record { result = minus_one; children = cs; killed = some pid }
commit_at name pid now (some i) cs = record {
  result = pos pid;
  children = set cs i (new_child name pid now);
  killed = none;
}

unfoldable pub commit : Text → ℕ → ℕ → ℕ → List Child → Spawned
unfolding commit_at
commit name pid now slot cs = commit_at name pid now (final_slot slot cs) cs

unfoldable pub after_fork : Fork → Text → ℕ → ℕ → List Child → Spawned
after_fork fork_failed name now slot cs = gone cs
after_fork (forked pid) name now slot cs = commit name pid now slot cs

-- `supervisor_spawn(name, argv)`, where `argv0` is none for a NULL argv or argv[0]. `fork` is the
-- result of the fork, `now` the clock in the second section, `meanwhile` what other threads do to
-- the table between the sections.
unfoldable pub spawn :
    Option Text → Option Text → Fork → ℕ → (List Child → List Child) → Supervisor → Spawned
unfolding after_fork commit
spawn none argv0 fork now meanwhile s = gone (init s).children
spawn (some name) none fork now meanwhile s = gone (init s).children
spawn (some name) (some argv0) fork now meanwhile s =
    let cs = (init s).children in
    elim (free_child cs) [
      | none ↦ gone cs
      | some slot ↦ after_fork fork name now slot (meanwhile cs)
    ]

unfoldable pub count_used : List Child → ℕ
count_used [] = 0
count_used (c ∷ cs) = (if c.in_use then 1 else 0) + count_used cs

unfoldable pub child_count : Supervisor → ℕ
unfolding count_used
child_count s = if s.inited then count_used s.children else 0
