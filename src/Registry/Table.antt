-- ===== src/Registry/Table.antt =====
-- registry.c: the public operations. Each holds the one mutex from its first access to the table
-- to its last, so an operation is a function from the old registry to its result and the new one.
-- A pointer that is handed out is the entry that it points to. `now` is `registry_now_ms()`.
use embedded_device_forwarde.Prelude.{
  ℕ, suc, List, [], ◌∷◌, Bool, true, ◌&&◌, Option, none, some, set, replicate, if◌then◌else◌,
}
use embedded_device_forwarde.Prelude.Int.{ℤ, pos, minus_one, int_eq}
use embedded_device_forwarde.Prelude.Text.{Text, str_eq}
use embedded_device_forwarde.Json.{Cjson}
use embedded_device_forwarde.Registry.Entry.{Entry, zeroed, free_entry, max_subprocs}
use embedded_device_forwarde.Registry.Parse.{parse_register_json}

-- `g_table` and `g_inited`.
pub record Registry : Type 0 where
  pub table : List Entry
  pub inited : Bool

-- `g_table[i].in_use && g_table[i].client_fd == fd`.
abbrev pub holds_fd : ℤ → Entry → Bool
holds_fd fd e = e.in_use && int_eq e.client_fd fd

-- `g_table[i].in_use && strcmp(g_table[i].device_id, device_id) == 0`.
abbrev pub holds_id : Text → Entry → Bool
holds_id id e = e.in_use && str_eq e.device_id id

unfoldable pub init : Registry → Registry
init r = if r.inited then r else record { table = replicate max_subprocs free_entry; inited = true }

-- What the scan of `registry_register` finds: the fd or the id is taken, or the first free slot.
pub data Scan : Type 0 where
  fd_taken id_taken : Scan
  first_free : Option ℕ → Scan

abbrev pub or_index : Option ℕ → ℕ → Option ℕ
or_index none i = some i
or_index (some k) i = some k

unfoldable pub scan : ℤ → Text → ℕ → Option ℕ → List Entry → Scan
scan fd id i free [] = first_free free
scan fd id i free (e ∷ es) =
    let rest = scan fd id (suc i) (if e.in_use then free else or_index free i) es in
    if holds_fd fd e then fd_taken else if holds_id id e then id_taken else rest

-- The entry as it is stored.
abbrev pub stored : ℤ → ℕ → Entry → Entry
stored fd now e = record e { client_fd = fd; in_use = true; last_seq = 0; last_heartbeat_ms = now }

-- The critical section of `registry_register`, on an entry that has been parsed.
unfoldable pub claim : ℤ → Entry → ℕ → Registry → ℤ × Registry
unfolding scan
claim fd parsed now r = elim (scan fd parsed.device_id 0 none r.table) [
  | fd_taken ↦ (minus_one, r)
  | id_taken ↦ (minus_one, r)
  | first_free free ↦ elim free [
    | none ↦ (minus_one, r)
    | some i ↦ (pos 0, record r { table = set r.table i (stored fd now parsed) })
  ]
]

module _ (cjson : Cjson) where
  unfoldable pub register : ℤ → List ℕ → ℕ → ℕ → Registry → ℤ × Registry
  register fd json json_len now r =
      let r' = init r in
      elim (parse_register_json cjson json json_len zeroed) [
        | none ↦ (minus_one, r')
        | some parsed ↦ claim fd parsed now r'
      ]

-- The loop of `registry_unregister`: the first slot of the fd is cleared.
unfoldable pub release_slot : ℤ → List Entry → ℤ × List Entry
release_slot fd [] = (minus_one, [])
release_slot fd (e ∷ es) =
    let (rc, es') = release_slot fd es in
    if holds_fd fd e then (pos 0, free_entry ∷ es) else (rc, e ∷ es')

unfoldable pub unregister : ℤ → Registry → ℤ × Registry
unfolding release_slot
unregister fd r =
    let (rc, table') = release_slot fd r.table in
    if r.inited then (rc, record r { table = table' }) else (minus_one, r)

-- The loop of `registry_update_heartbeat`.
unfoldable pub beat_slot : ℤ → ℕ → List Entry → ℤ × List Entry
beat_slot fd now [] = (minus_one, [])
beat_slot fd now (e ∷ es) =
    let (rc, es') = beat_slot fd now es in
    if holds_fd fd e then (pos 0, record e { last_heartbeat_ms = now } ∷ es) else (rc, e ∷ es')

unfoldable pub update_heartbeat : ℤ → ℕ → Registry → ℤ × Registry
unfolding beat_slot
update_heartbeat fd now r =
    let (rc, table') = beat_slot fd now r.table in
    if r.inited then (rc, record r { table = table' }) else (minus_one, r)

-- The first entry that passes a test.
unfoldable pub find_first : (Entry → Bool) → List Entry → Option Entry
find_first p [] = none
find_first p (e ∷ es) = if p e then some e else find_first p es

unfoldable pub find_by_fd : ℤ → Registry → Option Entry
unfolding find_first
find_by_fd fd r = if r.inited then find_first (holds_fd fd) r.table else none

unfoldable pub find_by_device_id : Option Text → Registry → Option Entry
unfolding find_first
find_by_device_id none r = none
find_by_device_id (some id) r = if r.inited then find_first (holds_id id) r.table else none

-- `registry_iterate(cb, user)`: `cb` on each used slot, in slot order, from the state of `user`.
unfoldable pub iterate_table {ℓ} : {U : Type ℓ} → (Entry → U → U) → List Entry → U → U
iterate_table cb [] u = u
iterate_table cb (e ∷ es) u = iterate_table cb es (if e.in_use then cb e u else u)

unfoldable pub iterate {ℓ} : {U : Type ℓ} → (Entry → U → U) → Registry → U → U
unfolding iterate_table
iterate cb r u = if r.inited then iterate_table cb r.table u else u
