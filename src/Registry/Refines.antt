-- ===== src/Registry/Refines.antt =====
-- The registry keeps to the map of its clients.
use embedded_device_forwarde.Prelude.{
  ℕ, suc, ◌≡◌, refl, ap, sym, ◌∙◌, subst, List, [], ◌∷◌, true, Option-cases, some, some-injective,
  inl, inr, arith, if◌then◌else◌, length, set, All,
}
use embedded_device_forwarde.Prelude.Int.{ℤ, minus_one, int_eq}
use embedded_device_forwarde.Prelude.Text.{Text, str_eq_iff}
use embedded_device_forwarde.Json.{Cjson}
use embedded_device_forwarde.Registry.Entry.{Entry, zeroed, max_subprocs}
use embedded_device_forwarde.Registry.Parse.{parse_register_json}
use embedded_device_forwarde.Registry.Table.{
  Registry, init, stored, claim, register, unregister, update_heartbeat, find_by_fd,
  find_by_device_id, find_first, holds_id,
}
use embedded_device_forwarde.Registry.Invariant.{
  init_done, FreeAt, Unclaimed, register-IsValid, unregister-IsValid, update_heartbeat-IsValid,
}
use embedded_device_forwarde.Registry.Lookup.{
  find_by_fd-unregister, find_by_fd-update_heartbeat, result-find_by_fd, find_first-set-FreeAt,
}
use embedded_device_forwarde.Registry.Register.{
  HasPlace, Claimed, taken, turned_down, claim-Claimed, register_refused, register_parsed,
  find_by_fd-inited,
}
use embedded_device_forwarde.Registry.Owner.{registered}
use embedded_device_forwarde.Registry.Counted.{
  registered-set, registered-release_slot, registered-beat_slot, FreeAt-lt, lt-FreeAt,
  Unclaimed-find_first, find_first-Unclaimed, find_first-id-fd, find_first-id-none,
  find_first-none-id, find_first-All,
}
use embedded_device_forwarde.Registry.Clients.{
  Call, register_call, unregister_call, heartbeat_call, fd_call, id_call, code, found, view, Same,
  Holds, Admits, apply, Allowed, replies, Behaves, Ready,
}

find_by_device_id-inited :
    (id : Text) (r : Registry)
    → r.inited ≡ true
    → find_by_device_id (some id) r ≡ find_first (holds_id id) r.table
unfolding find_by_device_id
find_by_device_id-inited id r e = ground (arith, e)

-- A place in the table is room in the map.
HasPlace-Admits :
    (fd : ℤ) (id : Text) (r : Registry) → Ready r → HasPlace fd id r.table → Admits (view r) fd id
HasPlace-Admits fd id r v p =
    let none_found = Unclaimed-find_first fd id r.table p.unclaimed in
    let slots : length r.table ≡ max_subprocs = v.valid.slots v.inited in
    record {
      room = omega (arith, FreeAt-lt r.table p.slot p.is_free, slots);
      no_fd = find_by_fd-inited fd r v.inited ∙ none_found.0;
      no_id = λ g e k.
          find_first-none-id id r.table none_found.1 g e (sym (find_by_fd-inited g r v.inited) ∙ k);
    }

Admits-HasPlace :
    (fd : ℤ) (id : Text) (r : Registry) → Ready r → Admits (view r) fd id → HasPlace fd id r.table
Admits-HasPlace fd id r v h =
    let slots : length r.table ≡ max_subprocs = v.valid.slots v.inited in
    let free = lt-FreeAt r.table (omega (arith, h.room, slots)) in
    record {
      unclaimed =
          find_first-Unclaimed fd id r.table (sym (find_by_fd-inited fd r v.inited) ∙ h.no_fd) (
            find_first-id-none id r.table v.valid.distinct
              (λ g e k. h.no_id g e (find_by_fd-inited g r v.inited ∙ k)));
      slot = free.0;
      is_free = free.1;
    }

-- The map with one client more.
inserted :
    (fd : ℤ) (parsed : Entry) (now i : ℕ) (r : Registry)
    → Ready r
    → Unclaimed fd parsed.device_id r.table
    → FreeAt r.table i
    → (let r' : Registry = record r { table = set r.table i (stored fd now parsed) } in
        Holds fd (some (stored fd now parsed)) (view r) (view r')
        × (registered r'.table ≡ suc (registered r.table)))
inserted fd parsed now i r v u at = (
  λ g.
      find_by_fd-inited g (record r { table = set r.table i (stored fd now parsed) }) v.inited
      ∙ find_first-set-FreeAt fd g now parsed.device_id parsed r.table i u at
      ∙ ap (λ o. if int_eq fd g then some (stored fd now parsed) else o)
          (sym (find_by_fd-inited g r v.inited)),
  registered-set r.table i (stored fd now parsed) at refl,
)

module _ (cjson : Cjson) where
  Kept : Call → Registry → Type 0
  Kept c r = Allowed cjson c (view r) (apply cjson c r).0 (view (apply cjson c r).1)

  unregister-Allowed : (fd : ℤ) (r : Registry) → Ready r → Kept (unregister_call fd) r
  unfolding Kept Allowed apply unregister find_by_fd
  unregister-Allowed fd r v = (
    ap code (result-find_by_fd fd 0 r).0,
    λ g. find_by_fd-unregister fd g r v.valid,
    ground (arith, v.inited, registered-release_slot fd r.table),
  )

  heartbeat-Allowed : (fd : ℤ) (now : ℕ) (r : Registry) → Ready r → Kept (heartbeat_call fd now) r
  unfolding Kept Allowed apply update_heartbeat
  heartbeat-Allowed fd now r v = (
    ap code (result-find_by_fd fd now r).1,
    λ g. find_by_fd-update_heartbeat fd g now r,
    ground (arith, v.inited, registered-beat_slot fd now r.table),
  )

  id-Allowed : (id : Text) (r : Registry) → Ready r → Kept (id_call id) r
  unfolding Kept Allowed apply
  id-Allowed id r v = elim (Option-cases (find_first (holds_id id) r.table)) [
    | inl n ↦ (
      inr (
        ap found (find_by_device_id-inited id r v.inited ∙ n),
        λ g e k. find_first-none-id id r.table n g e (sym (find_by_fd-inited g r v.inited) ∙ k),
      ),
      ((λ g. refl), refl),
    )
    | inr (e, k) ↦
        let at = find_first-All (λ y. Unit {0}) (holds_id id) r.table e k (all_unit r.table) in
        (
          inl (
            e,
            ap found (find_by_device_id-inited id r v.inited ∙ k),
            find_by_fd-inited e.client_fd r v.inited
                ∙ find_first-id-fd id r.table e v.valid.distinct k,
            ground (arith, at.0, str_eq_iff e.device_id id),
          ),
          ((λ g. refl), refl),
        )
  ]
    where
      all_unit : (es : List Entry) → All (λ y. Unit {0}) es
      all_unit [] = tt
      all_unit (x ∷ es) = (tt, all_unit es)

  register-Allowed :
      (fd : ℤ) (json : List ℕ) (len now : ℕ) (r : Registry)
      → Ready r
      → Kept (register_call fd json len now) r
  unfolding Kept Allowed apply
  register-Allowed fd json len now r v =
      elim (Option-cases (parse_register_json cjson json len zeroed)) [
        | inl bad ↦
            let o : register cjson fd json len now r ≡ (minus_one, r) =
              register_refused cjson fd json len now r bad ∙ ap (λ x. (minus_one, x)) started in
            inr ((λ parsed n. cc (bad, n.0)), ap (λ x. code x.0) o, same o)
        | inr (parsed, good) ↦
            let o : register cjson fd json len now r ≡ claim fd parsed now r =
              register_parsed cjson fd json len now r parsed good
              ∙ ap (claim fd parsed now) started in
            placed parsed good o (claim-Claimed fd parsed now r)
      ]
    where
      started : init r ≡ r
      started = init_done r v.inited

      same :
          register cjson fd json len now r ≡ (minus_one, r)
          → Same (view r) (view (register cjson fd json len now r).1)
      same o = ((λ g. ap (λ x. find_by_fd g x.1) o), ap (λ x. registered x.1.table) o)

      Outcome : Type 0
      Outcome = Kept (register_call fd json len now) r

      placed :
          (parsed : Entry)
          → parse_register_json cjson json len zeroed ≡ some parsed
          → register cjson fd json len now r ≡ claim fd parsed now r
          → Claimed fd parsed now r
          → Outcome
      placed parsed good o (taken p i at e) =
          let w = o ∙ e in
          let there = inserted fd parsed now i r v p.unclaimed at in
          inl (
            parsed,
            (good, HasPlace-Admits fd parsed.device_id r v p),
            ap (λ x. code x.0) w,
            (λ g. ap (λ x. find_by_fd g x.1) w ∙ there.0 g),
            ap (λ x. registered x.1.table) w ∙ there.1,
          )
      placed parsed good o (turned_down no_place e) =
          let w = o ∙ e in
          inr (
            (λ other n.
                let is_parsed : some other ≡ some parsed = sym n.0 ∙ good in
                no_place (
                  Admits-HasPlace fd parsed.device_id r v (
                    subst (λ (x : Entry). Admits (view r) fd x.device_id)
                      (some-injective other parsed is_parsed) n.1))),
            ap (λ x. code x.0) w,
            same w,
          )

  register-inited :
      (fd : ℤ) (json : List ℕ) (len now : ℕ) (r : Registry)
      → r.inited ≡ true
      → (register cjson fd json len now r).1.inited ≡ true
  unfolding register claim
  register-inited fd json len now r e =
      let started = init_done r e in
      elim (Option-cases (parse_register_json cjson json len zeroed)) [
        | inl bad ↦
            ap (λ x. x.1.inited) (register_refused cjson fd json len now r bad)
            ∙ ap (λ x. x.inited) started
            ∙ e
        | inr (parsed, good) ↦
            ap (λ x. x.1.inited) (register_parsed cjson fd json len now r parsed good)
            ∙ claimed parsed (claim-Claimed fd parsed now (init r))
            ∙ ap (λ x. x.inited) started
            ∙ e
      ]
    where
      claimed :
          (parsed : Entry)
          → Claimed fd parsed now (init r)
          → (claim fd parsed now (init r)).1.inited ≡ (init r).inited
      claimed parsed (taken p i at k) = ap (λ x. x.1.inited) k
      claimed parsed (turned_down no_place k) = ap (λ x. x.1.inited) k

  apply-Ready : (c : Call) (r : Registry) → Ready r → Ready (apply cjson c r).1
  unfolding apply unregister update_heartbeat
  apply-Ready (register_call fd json len now) r v = record {
    valid = register-IsValid cjson fd json len now r v.valid;
    inited = register-inited fd json len now r v.inited;
  }
  apply-Ready (unregister_call fd) r v = record {
    valid = unregister-IsValid fd r v.valid;
    inited = ground (arith, v.inited);
  }
  apply-Ready (heartbeat_call fd now) r v = record {
    valid = update_heartbeat-IsValid fd now r v.valid;
    inited = ground (arith, v.inited);
  }
  apply-Ready (fd_call fd) r v = v
  apply-Ready (id_call id) r v = v

  apply-Allowed : (c : Call) (r : Registry) → Ready r → Kept c r
  unfolding Kept Allowed apply
  apply-Allowed (register_call fd json len now) r v = register-Allowed fd json len now r v
  apply-Allowed (unregister_call fd) r v = unregister-Allowed fd r v
  apply-Allowed (heartbeat_call fd now) r v = heartbeat-Allowed fd now r v
  apply-Allowed (fd_call fd) r v = (refl, ((λ g. refl), refl))
  apply-Allowed (id_call id) r v = id-Allowed id r v

  -- A registry that is valid and set up, such as `registry_init` leaves, replies to any sequence of
  -- calls as a map from fds to clients may, which has neither slots nor an order. A registration
  -- succeeds exactly if the payload parses, fewer than 32 clients are registered, and none has the fd
  -- or the device id; it then adds the parsed client with the fd and the time, and changes nothing
  -- else. An unregistration takes the client of the fd away, a heartbeat sets its time, both with 0
  -- for a client that is there and -1 for none. A search by fd gives the client of the fd, a search by
  -- device id a client that has the id, if there is one.
  pub replies-Behaves :
      (cs : List Call) (r : Registry) → Ready r → Behaves cjson cs (view r) (replies cjson cs r)
  unfolding Behaves replies Kept
  replies-Behaves [] r v = refl
  replies-Behaves (c ∷ cs) r v = (
    view (apply cjson c r).1,
    apply-Allowed c r v,
    replies-Behaves cs (apply cjson c r).1 (apply-Ready c r v),
  )
