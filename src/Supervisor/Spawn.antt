-- ===== src/Supervisor/Spawn.antt =====
-- What a spawn does to the child table.
use mathlib.Core.Option
use embedded_device_forwarde.Prelude.{
  ◌⊎◌, sym, subst, if◌then◌else◌, inr, inl, Bool-cases, ◌<◌, ℕ, zero, suc, ◌≡◌, refl, List, [], ◌∷◌,
  Bool, true, false, Option, none, some, set, length, arith,
}
use embedded_device_forwarde.Prelude.Int.{pos, minus_one}
use embedded_device_forwarde.Prelude.Text.{Text}
use embedded_device_forwarde.Supervisor.Children.{
  gone, after_fork, commit_at, Child, Supervisor, init, free_child, used_at, forked, Spawned,
  new_child, final_slot, commit, spawn, count_used,
}

-- The slot is in the table and free.
pub FreeAt : ℕ → List Child → Type 0
FreeAt i cs = (used_at i cs ≡ false) × (i < length cs)

-- The slot that was found, or the table is full.
FreeSlot : Option ℕ → List Child → Type 0
FreeSlot none cs = count_used cs ≡ length cs
FreeSlot (some i) cs = FreeAt i cs

FreeSlot-map :
    (o : Option ℕ) (c : Child) (cs : List Child)
    → c.in_use ≡ true
    → FreeSlot o cs
    → FreeSlot (Option.map suc o) (c ∷ cs)
unfolding FreeSlot FreeAt used_at count_used
FreeSlot-map none c cs e h = ground (arith, e, h)
FreeSlot-map (some i) c cs e h = (h.0, omega (arith, h.1))

FreeSlot-head :
    (b : Bool) (o : Option ℕ) (c : Child) (cs : List Child)
    → c.in_use ≡ b
    → FreeSlot o cs
    → FreeSlot (if b then Option.map suc o else some 0) (c ∷ cs)
unfolding FreeSlot FreeAt used_at
FreeSlot-head true o c cs e h = FreeSlot-map o c cs e h
FreeSlot-head false o c cs e h = (e, omega arith)

free_child-FreeSlot : (cs : List Child) → FreeSlot (free_child cs) cs
unfolding free_child FreeSlot count_used
free_child-FreeSlot [] = refl
free_child-FreeSlot (c ∷ cs) =
    FreeSlot-head c.in_use (free_child cs) c cs refl (free_child-FreeSlot cs)

count_used-set :
    (cs : List Child) (i : ℕ) (c : Child)
    → i < length cs
    → used_at i cs ≡ false
    → c.in_use ≡ true
    → count_used (set cs i c) ≡ suc (count_used cs)
unfolding used_at count_used
count_used-set [] i c h e u = absurd (omega arith)
count_used-set (d ∷ cs) zero c h e u = ground arith
count_used-set (d ∷ cs) (suc i) c h e u = ground (arith, count_used-set cs i c)

-- The child with this pid took a slot that no child held, and one child more is counted.
pub Started : Text → ℕ → ℕ → List Child → Spawned → Type 0
Started name pid now cs r =
    (r.result ≡ pos pid)
    × (r.killed ≡ none)
    × (i : ℕ) × FreeAt i cs
    × (r.children ≡ set cs i (new_child name pid now))
    × (count_used r.children ≡ suc (count_used cs))

-- The child with this pid found the table full and was killed.
pub Killed : ℕ → List Child → Spawned → Type 0
Killed pid cs r =
    (r.result ≡ minus_one) × (r.killed ≡ some pid) × (r.children ≡ cs) × (count_used cs ≡ length cs)

final_slot-FreeSlot :
    (slot : ℕ) (cs : List Child) → slot < length cs → FreeSlot (final_slot slot cs) cs
unfolding final_slot FreeSlot FreeAt
final_slot-FreeSlot slot cs h = elim (Bool-cases (used_at slot cs)) [
  | inl b ↦
      subst (λ t. FreeSlot (if t then free_child cs else some slot) cs) (sym b)
        (free_child-FreeSlot cs)
  | inr b ↦ subst (λ t. FreeSlot (if t then free_child cs else some slot) cs) (sym b) (b, h)
]

commit_at-outcome :
    (name : Text) (pid now : ℕ) (o : Option ℕ) (cs : List Child)
    → FreeSlot o cs
    → Started name pid now cs (commit_at name pid now o cs)
      ⊎ Killed pid cs (commit_at name pid now o cs)
unfolding commit_at Started Killed FreeSlot FreeAt
commit_at-outcome name pid now none cs f = inr (refl, refl, refl, f)
commit_at-outcome name pid now (some i) cs f =
    inl (refl, refl, i, f, refl, count_used-set cs i (new_child name pid now) f.1 f.0 refl)

-- A spawn that finds a free slot and forks either starts the child or kills it. It is started in a
-- slot that no child holds in the table as other threads have left it meanwhile, so that none is
-- lost, and one child more is counted; it is killed only if that table is full, which is then left
-- as it is. Other threads change the entries of the table, not its length.
pub spawn-outcome :
    (name argv0 : Text) (pid now : ℕ) (meanwhile : List Child → List Child) (s : Supervisor)
    (slot : ℕ)
    → ((cs : List Child) → length (meanwhile cs) ≡ length cs)
    → free_child (init s).children ≡ some slot
    → Started name pid now
        (meanwhile (init s).children)
        (spawn (some name) (some argv0) (forked pid) now meanwhile s)
      ⊎ Killed pid
          (meanwhile (init s).children)
          (spawn (some name) (some argv0) (forked pid) now meanwhile s)
unfolding spawn after_fork commit FreeAt FreeSlot
spawn-outcome name argv0 pid now meanwhile s slot same e =
    let before = (init s).children in
    let cs = meanwhile before in
    let f = subst (λ o. FreeSlot o before) e (free_child-FreeSlot before) in
    subst
      (λ o.
        Started name pid now cs
          (elim o [ none ↦ gone before | some i ↦ after_fork (forked pid) name now i cs ])
        ⊎ Killed pid cs
            (elim o [ none ↦ gone before | some i ↦ after_fork (forked pid) name now i cs ]))
      (sym e)
      (commit_at-outcome name pid now (final_slot slot cs) cs
        (final_slot-FreeSlot slot cs (omega (arith, f.1, same before))))
