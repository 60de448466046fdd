-- ===== src/Registry/Clients.antt =====
-- The registry as its callers see it: a map from the fds of connections to clients, with room for 32,
-- and without the slots and their order.
use mathlib.Core.Option
use embedded_device_forwarde.Prelude.{
  ℕ, suc, ◌+◌, ◌<◌, ◌≡◌, ◌≢◌, List, [], ◌∷◌, true, Option, none, some, ◌⊎◌, if◌then◌else◌,
}
use embedded_device_forwarde.Prelude.Int.{ℤ, pos, minus_one, int_eq}
use embedded_device_forwarde.Prelude.Text.{Text}
use embedded_device_forwarde.Json.{Cjson}
use embedded_device_forwarde.Registry.Entry.{Entry, zeroed, max_subprocs}
use embedded_device_forwarde.Registry.Parse.{parse_register_json}
use embedded_device_forwarde.Registry.Table.{
  Registry, stored, register, unregister, update_heartbeat, find_by_fd, find_by_device_id,
}
use embedded_device_forwarde.Registry.Invariant.{IsValid}
use embedded_device_forwarde.Registry.Lookup.{beaten, found_code}
use embedded_device_forwarde.Registry.Owner.{registered}
use embedded_device_forwarde.Registry.Counted.{one_if}

pub data Call : Type 0 where
  register_call : ℤ → List ℕ → ℕ → ℕ → Call
  unregister_call : ℤ → Call
  heartbeat_call : ℤ → ℕ → Call
  fd_call : ℤ → Call
  id_call : Text → Call

pub data Reply : Type 0 where
  code : ℤ → Reply
  found : Option Entry → Reply

-- Who has an fd, and how many there are.
pub record ClientMap : Type 0 where
  pub client : ℤ → Option Entry
  pub size : ℕ

abbrev pub view : Registry → ClientMap
view r = record { client = λ fd. find_by_fd fd r; size = registered r.table }

-- Nothing changes.
abbrev pub Same : ClientMap → ClientMap → Type 0
Same m m' = ((fd : ℤ) → m'.client fd ≡ m.client fd) × (m'.size ≡ m.size)

-- The fd has this client, or none, and every other fd has what it had.
abbrev pub Holds : ℤ → Option Entry → ClientMap → ClientMap → Type 0
Holds fd e m m' = (g : ℤ) → m'.client g ≡ (if int_eq fd g then e else m.client g)

-- There is room, nobody has the fd, and nobody has the device id.
pub record Admits (m : ClientMap) (fd : ℤ) (id : Text) : Type 0 where
  pub room : m.size < max_subprocs
  pub no_fd : m.client fd ≡ none
  pub no_id : (g : ℤ) (e : Entry) → m.client g ≡ some e → e.device_id ≢ id

module _ (cjson : Cjson) where
  unfoldable pub apply : Call → Registry → Reply × Registry
  apply (register_call fd json len now) r =
      let (rc, r') = register cjson fd json len now r in (code rc, r')
  apply (unregister_call fd) r = let (rc, r') = unregister fd r in (code rc, r')
  apply (heartbeat_call fd now) r = let (rc, r') = update_heartbeat fd now r in (code rc, r')
  apply (fd_call fd) r = (found (find_by_fd fd r), r)
  apply (id_call id) r = (found (find_by_device_id (some id) r), r)

  -- A client that the map admits.
  abbrev pub Newcomer : ℤ → List ℕ → ℕ → ClientMap → Entry → Type 0
  Newcomer fd json len m parsed =
      (parse_register_json cjson json len zeroed ≡ some parsed) × Admits m fd parsed.device_id

  -- What a call may reply, and the map after it.
  unfoldable pub Allowed : Call → ClientMap → Reply → ClientMap → Type 0
  Allowed (register_call fd json len now) m a m' =
      ((parsed : Entry) × Newcomer fd json len m parsed
        × (a ≡ code (pos 0))
        × Holds fd (some (stored fd now parsed)) m m'
        × (m'.size ≡ suc m.size))
      ⊎ (((parsed : Entry) → ¬ Newcomer fd json len m parsed) × (a ≡ code minus_one) × Same m m')
  Allowed (unregister_call fd) m a m' =
      (a ≡ code (found_code (m.client fd)))
      × Holds fd none m m'
      × (m'.size + one_if (m.client fd) ≡ m.size)
  Allowed (heartbeat_call fd now) m a m' =
      (a ≡ code (found_code (m.client fd)))
      × ((g : ℤ)
          → m'.client g
            ≡ (if int_eq fd g then Option.map (beaten now) (m.client g) else m.client g))
      × (m'.size ≡ m.size)
  Allowed (fd_call fd) m a m' = (a ≡ found (m.client fd)) × Same m m'
  Allowed (id_call id) m a m' =
      (((e : Entry) × (a ≡ found (some e)) × (m.client e.client_fd ≡ some e) × (e.device_id ≡ id))
        ⊎ ((a ≡ found none) × ((g : ℤ) (e : Entry) → m.client g ≡ some e → e.device_id ≢ id)))
      × Same m m'

  -- The replies to these calls, one after the other.
  unfoldable pub replies : List Call → Registry → List Reply
  replies [] r = []
  replies (c ∷ cs) r = let (a, r') = apply c r in a ∷ replies cs r'

  -- These replies are allowed, from this map on.
  unfoldable pub Behaves : List Call → ClientMap → List Reply → Type 0
  Behaves [] m rs = rs ≡ []
  Behaves (c ∷ cs) m [] = ⊥
  Behaves (c ∷ cs) m (a ∷ rs) = (m' : ClientMap) × Allowed c m a m' × Behaves cs m' rs

-- A registry after `registry_init`.
pub record Ready (r : Registry) : Type 0 where
  pub valid : IsValid r
  pub inited : r.inited ≡ true
