-- ===== src/Supervisor/Heartbeat.antt =====
-- supervisor.c: `supervisor_check_heartbeats_at`, which copies the used entries of the registry
-- under its lock and judges them outside, and the number that it returns.
use embedded_device_forwarde.Prelude.{
  inr, inl, sym, Bool-cases, ℕ, ◌+◌, ◌-◌, ◌≤◌, ◌<◌, ◌≡◌, refl, ◌∙◌, ap, List, [], ◌∷◌, ◌++◌, Bool,
  false, arith, length, ltb, leb, if◌then◌else◌, length-append, ◌&&◌, append_assoc, append-nil,
}
use embedded_device_forwarde.Registry.Entry.{Entry, max_subprocs}
use embedded_device_forwarde.Registry.Clock.{registry_now_ms}
use embedded_device_forwarde.Registry.Table.{Registry, iterate, iterate_table}
use embedded_device_forwarde.Registry.Invariant.{IsValid}

-- `collect_cb`: the snapshot takes 32 entries at most. Its count is its length.
unfoldable pub collect_cb : Entry → List Entry → List Entry
collect_cb e ctx = if ltb (length ctx) max_subprocs then ctx ++ e ∷ [] else ctx

-- The judgement of one entry. The subtraction is behind the test, so it does not wrap.
abbrev pub is_stale : ℕ → ℕ → Entry → Bool
is_stale now timeout e =
    if leb now e.last_heartbeat_ms then false else ltb timeout (now - e.last_heartbeat_ms)

unfoldable pub count_stale : ℕ → ℕ → ℕ → List Entry → ℕ
count_stale now timeout stale [] = stale
count_stale now timeout stale (e ∷ es) =
    count_stale now timeout (if is_stale now timeout e then stale + 1 else stale) es

unfoldable pub check_heartbeats_at : ℕ → ℕ → Registry → ℕ
unfolding collect_cb count_stale
check_heartbeats_at now timeout r = count_stale now timeout 0 (iterate collect_cb r [])

-- `supervisor_check_heartbeats(timeout_ms)`, at the time that the clock shows.
unfoldable pub check_heartbeats : ℕ → ℕ → ℕ → Registry → ℕ
unfolding check_heartbeats_at
check_heartbeats tv_sec tv_nsec timeout r =
    check_heartbeats_at (registry_now_ms tv_sec tv_nsec) timeout r

-- The used entries whose last heartbeat is more than the timeout ago, counted in the table.
unfoldable pub overdue : ℕ → ℕ → List Entry → ℕ
overdue now timeout [] = 0
overdue now timeout (e ∷ es) =
    (if e.in_use && ltb (e.last_heartbeat_ms + timeout) now then 1 else 0) + overdue now timeout es

used : List Entry → List Entry
used [] = []
used (e ∷ es) = if e.in_use then e ∷ used es else used es

length-used : (es : List Entry) → length (used es) ≤ length es
unfolding used
length-used [] = omega arith
length-used (e ∷ es) = ground (arith, length-used es)

collect_cb-room :
    (e : Entry) (ctx : List Entry) → length ctx < max_subprocs → collect_cb e ctx ≡ ctx ++ e ∷ []
unfolding collect_cb
collect_cb-room e ctx h = ground arith

iterate-collect_cb :
    (es ctx : List Entry)
    → length ctx + length es ≤ max_subprocs
    → iterate_table collect_cb es ctx ≡ ctx ++ used es
unfolding iterate_table collect_cb used
iterate-collect_cb [] ctx h = sym (append-nil ctx)
iterate-collect_cb (e ∷ es) ctx h = elim (Bool-cases e.in_use) [
  | inl b ↦
      ap (λ t. iterate_table collect_cb es (if t then collect_cb e ctx else ctx)) b
      ∙ ap (iterate_table collect_cb es) (collect_cb-room e ctx (omega arith))
      ∙ iterate-collect_cb es (ctx ++ e ∷ []) (omega (arith, length-append ctx (e ∷ [])))
      ∙ append_assoc ctx (e ∷ []) (used es)
      ∙ ap (λ t. ctx ++ (if t then e ∷ used es else used es)) (sym b)
  | inr b ↦
      ap (λ t. iterate_table collect_cb es (if t then collect_cb e ctx else ctx)) b
      ∙ iterate-collect_cb es ctx (omega arith)
      ∙ ap (λ t. ctx ++ (if t then e ∷ used es else used es)) (sym b)
]

count_stale-used :
    (now timeout stale : ℕ) (es : List Entry)
    → count_stale now timeout stale (used es) ≡ stale + overdue now timeout es
unfolding count_stale used overdue
count_stale-used now timeout stale [] = omega arith
count_stale-used now timeout stale (e ∷ es) =
    ground
      (arith, count_stale-used now timeout stale es, count_stale-used now timeout (stale + 1) es)

zero_add : (n : ℕ) → 0 + n ≡ n
zero_add n = omega arith

count_stale-nil : (now timeout : ℕ) → count_stale now timeout 0 [] ≡ 0
unfolding count_stale
count_stale-nil now timeout = refl

-- The heartbeat check returns the number of registered clients whose last heartbeat is more than
-- the timeout ago: the snapshot misses none of them, and a heartbeat later than `now` counts as in
-- time.
pub check_heartbeats_at_lem :
    (now timeout : ℕ) (r : Registry)
    → IsValid r
    → check_heartbeats_at now timeout r ≡ (if r.inited then overdue now timeout r.table else 0)
unfolding check_heartbeats_at iterate
check_heartbeats_at_lem now timeout r v = elim (Bool-cases r.inited) [
  | inl b ↦
      ap (λ t. count_stale now timeout 0 (if t then iterate_table collect_cb r.table [] else [])) b
      ∙ ap (count_stale now timeout 0) (iterate-collect_cb r.table [] (omega (arith, v.slots b)))
      ∙ count_stale-used now timeout 0 r.table
      ∙ zero_add (overdue now timeout r.table)
      ∙ ap (λ t. if t then overdue now timeout r.table else 0) (sym b)
  | inr b ↦
      ap (λ t. count_stale now timeout 0 (if t then iterate_table collect_cb r.table [] else [])) b
      ∙ count_stale-nil now timeout
      ∙ ap (λ t. if t then overdue now timeout r.table else 0) (sym b)
]
