-- ===== src/Registry/Register.antt =====
-- `registry_register`: when it succeeds, and what it does on either outcome.
use embedded_device_forwarde.Prelude.{
  subst, ℕ, zero, suc, ◌≡◌, refl, List, [], ◌∷◌, true, Option, none, some, arith, set, replicate,
  if◌then◌else◌, ◌⊎◌, inl, inr, ◌↔◌, Option-cases, Bool-cases, sym, ◌∙◌, ap,
}
use embedded_device_forwarde.Prelude.Int.{ℤ, pos, minus_one, int_eq}
use embedded_device_forwarde.Prelude.Text.{Text}
use embedded_device_forwarde.Json.{Cjson}
use embedded_device_forwarde.Registry.Entry.{Entry, free_entry, max_subprocs, zeroed}
use embedded_device_forwarde.Registry.Parse.{parse_register_json}
use embedded_device_forwarde.Registry.Table.{
  Registry, init, holds_fd, find_first, find_by_fd, stored, scan, Scan, first_free, fd_taken,
  id_taken, claim, register, or_index,
}
use embedded_device_forwarde.Registry.Invariant.{
  FreeAt, Unclaimed, scan-Unclaimed, scan-FreeAt, init_done, init_fresh,
}
use embedded_device_forwarde.Registry.Lookup.{find_first-set-FreeAt}

-- The first free slot, and the one found before.
free_slot : ℕ → Option ℕ → List Entry → Option ℕ
free_slot i free [] = free
free_slot i free (e ∷ es) = free_slot (suc i) (if e.in_use then free else or_index free i) es

free_slot_kept : (i m : ℕ) (es : List Entry) → free_slot i (some m) es ≡ some m
unfolding free_slot
free_slot_kept i m [] = refl
free_slot_kept i m (e ∷ es) = ground (arith, free_slot_kept (suc i) m es)

free_slot-FreeAt :
    (i j : ℕ) (es : List Entry) → FreeAt es j → (k : ℕ) × (free_slot i none es ≡ some k)
unfolding free_slot
free_slot-FreeAt i j [] f = absurd f
free_slot-FreeAt i zero (e ∷ es) f = (i, rw f (free_slot_kept (suc i) i es))
free_slot-FreeAt i (suc j) (e ∷ es) f = elim (Bool-cases e.in_use) [
  | inl used ↦ rw used (free_slot-FreeAt (suc i) j es f)
  | inr unused ↦ (i, rw unused (free_slot_kept (suc i) i es))
]

scan-free_slot :
    (fd : ℤ) (id : Text) (i : ℕ) (free : Option ℕ) (es : List Entry)
    → Unclaimed fd id es
    → scan fd id i free es ≡ first_free (free_slot i free es)
unfolding scan free_slot
scan-free_slot fd id i free [] u = refl
scan-free_slot fd id i free (e ∷ es) u =
    ground (arith, scan-free_slot fd id (suc i) (if e.in_use then free else or_index free i) es u.1)

-- There is a free slot, and nobody holds the fd or the device id.
pub record HasPlace (fd : ℤ) (id : Text) (es : List Entry) : Type 0 where
  pub unclaimed : Unclaimed fd id es
  pub slot : ℕ
  pub is_free : FreeAt es slot

-- What the critical section did, from how its scan ended.
pub data Claimed (fd : ℤ) (parsed : Entry) (now : ℕ) (r : Registry) : Type 0 where
  taken :
      HasPlace fd parsed.device_id r.table
      → (i : ℕ) → FreeAt r.table i
      → claim fd parsed now r ≡ (pos 0, record r { table = set r.table i (stored fd now parsed) })
      → Claimed fd parsed now r
  turned_down :
      ¬ HasPlace fd parsed.device_id r.table
      → claim fd parsed now r ≡ (minus_one, r)
      → Claimed fd parsed now r

pub claim-Claimed : (fd : ℤ) (parsed : Entry) (now : ℕ) (r : Registry) → Claimed fd parsed now r
unfolding claim
claim-Claimed fd parsed now r = go (scan fd parsed.device_id 0 none r.table) refl
  where
    no_place :
        (s : Scan)
        → ((k : ℕ) → s ≡ first_free (some k) → ⊥)
        → scan fd parsed.device_id 0 none r.table ≡ s
        → ¬ HasPlace fd parsed.device_id r.table
    no_place s other e p =
        let (k, found) = free_slot-FreeAt 0 p.slot r.table p.is_free in
        other k (
          sym e
          ∙ scan-free_slot fd parsed.device_id 0 none r.table p.unclaimed
          ∙ ap first_free found)

    go : (s : Scan) → scan fd parsed.device_id 0 none r.table ≡ s → Claimed fd parsed now r
    go fd_taken e = turned_down (no_place fd_taken (λ k q. cc) e) (rw (e, claim))
    go id_taken e = turned_down (no_place id_taken (λ k q. cc) e) (rw (e, claim))
    go (first_free none) e = turned_down (no_place (first_free none) (λ k q. cc) e) (rw (e, claim))
    go (first_free (some i)) e =
        let (j, ij, at) = scan-FreeAt fd parsed.device_id 0 r.table e in
        let at_i : FreeAt r.table i = subst (FreeAt r.table) (omega arith) at in
        let u : Unclaimed fd parsed.device_id r.table =
          scan-Unclaimed fd parsed.device_id 0 none r.table (some i) e in
        taken (record { unclaimed = u; slot = i; is_free = at_i }) i at_i (rw (e, claim))

-- Nothing is found in a table that has just been set up.
find_first-replicate : (fd : ℤ) (n : ℕ) → find_first (holds_fd fd) (replicate n free_entry) ≡ none
unfolding find_first
find_first-replicate fd zero = refl
find_first-replicate fd (suc n) = find_first-replicate fd n

find_by_fd-init : (fd : ℤ) (r : Registry) → find_by_fd fd (init r) ≡ find_by_fd fd r
unfolding find_by_fd
find_by_fd-init fd r = elim (Bool-cases r.inited) [
  | inl done ↦ ap (find_by_fd fd) (init_done r done)
  | inr fresh ↦
      ap (find_by_fd fd) (init_fresh r fresh)
      ∙ find_first-replicate fd max_subprocs
      ∙ ground (arith, fresh)
]

init-inited : (r : Registry) → (init r).inited ≡ true
unfolding init
init-inited r = ground arith

pub find_by_fd-inited :
    (fd : ℤ) (r : Registry) → r.inited ≡ true → find_by_fd fd r ≡ find_first (holds_fd fd) r.table
unfolding find_by_fd
find_by_fd-inited fd r e = ground arith

module _ (cjson : Cjson) (fd : ℤ) (json : List ℕ) (json_len now : ℕ) (r : Registry) where
  abbrev parse : Option Entry
  parse = parse_register_json cjson json json_len zeroed

  abbrev outcome : ℤ × Registry
  outcome = register cjson fd json json_len now r

  pub register_refused : parse ≡ none → outcome ≡ (minus_one, init r)
  unfolding register
  register_refused e = rw (e, register)

  pub register_parsed :
      (parsed : Entry) → parse ≡ some parsed → outcome ≡ claim fd parsed now (init r)
  unfolding register
  register_parsed parsed e = rw (e, register)

  -- `registry_register` returns 0 exactly when the payload parses to an entry with the required
  -- fields, no used slot holds the fd or the device id, and a slot is free.
  pub register_iff : (outcome.0 ≡ pos 0) ↔ (
      (parsed : Entry) × (parse_register_json cjson json json_len zeroed ≡ some parsed)
      × HasPlace fd parsed.device_id (init r).table)
  register_iff = (
    succeeds (Option-cases parse),
    λ (parsed, e, p).
        ap (λ o. o.0) (register_parsed parsed e)
        ∙ placed parsed p (claim-Claimed fd parsed now (init r)),
  )
    where
      placed :
          (parsed : Entry)
          → HasPlace fd parsed.device_id (init r).table
          → Claimed fd parsed now (init r)
          → (claim fd parsed now (init r)).0 ≡ pos 0
      placed parsed p (taken _ i at e) = ap (λ o. o.0) e
      placed parsed p (turned_down no_place e) = absurd (no_place p)

      claimed :
          (parsed : Entry)
          → Claimed fd parsed now (init r)
          → (claim fd parsed now (init r)).0 ≡ pos 0
          → HasPlace fd parsed.device_id (init r).table
      claimed parsed (taken p i at e) z = p
      claimed parsed (turned_down no_place e) z = cc

      succeeds :
          ((parse ≡ none) ⊎ ((parsed : Entry) × (parse ≡ some parsed)))
          → outcome.0 ≡ pos 0
          → (parsed : Entry) × (parse ≡ some parsed) × HasPlace fd parsed.device_id (init r).table
      succeeds (inl bad) z = cc (register_refused bad)
      succeeds (inr (parsed, good)) z = (
        parsed,
        good,
        claimed parsed (claim-Claimed fd parsed now (init r))
            (sym (ap (λ o. o.0) (register_parsed parsed good)) ∙ z),
      )

  -- The result and the lookups afterwards, on success and on failure.
  abbrev pub Effect : Type 0
  Effect =
      ((outcome.0 ≡ pos 0)
        × ((parsed : Entry) × (parse_register_json cjson json json_len zeroed ≡ some parsed)
            × ((fd' : ℤ)
                → find_by_fd fd' outcome.1
                  ≡ (if int_eq fd fd' then some (stored fd now parsed) else find_by_fd fd' r))))
      ⊎ ((outcome.0 ≡ minus_one) × ((fd' : ℤ) → find_by_fd fd' outcome.1 ≡ find_by_fd fd' r))

  -- What a call of `registry_register` leaves: on success the fd of the call maps to the parsed
  -- entry, stamped with the fd, the time and a zero sequence number, and no other fd is touched;
  -- on failure it returns -1 and every fd is found as before.
  pub register_effect : Effect
  register_effect = cases (Option-cases parse)
    where
      kept : outcome ≡ (minus_one, init r) → (fd' : ℤ) → find_by_fd fd' outcome.1 ≡ find_by_fd fd' r
      kept e fd' = ap (λ o. find_by_fd fd' o.1) e ∙ find_by_fd-init fd' r

      inserted :
          (parsed : Entry) (i : ℕ)
          → HasPlace fd parsed.device_id (init r).table
          → FreeAt (init r).table i
          → outcome ≡ (
            pos 0,
            record {
              table = set (init r).table i (stored fd now parsed);
              inited = (init r).inited;
            },
          )
          → (fd' : ℤ)
          → find_by_fd fd' outcome.1
            ≡ (if int_eq fd fd' then some (stored fd now parsed) else find_by_fd fd' r)
      inserted parsed i p at e fd' =
          ap (λ o. find_by_fd fd' o.1) e
          ∙ find_by_fd-inited fd'
              (record {
                table = set (init r).table i (stored fd now parsed);
                inited = (init r).inited;
              })
              (init-inited r)
          ∙ find_first-set-FreeAt fd fd' now parsed.device_id parsed (init r).table i p.unclaimed at
          ∙ ap (λ o. if int_eq fd fd' then some (stored fd now parsed) else o)
              (sym (find_by_fd-inited fd' (init r) (init-inited r)) ∙ find_by_fd-init fd' r)

      done : (parsed : Entry) → parse ≡ some parsed → Claimed fd parsed now (init r) → Effect
      done parsed good (taken p i at e) =
          let o = register_parsed parsed good ∙ e in
          inl (ap (λ o. o.0) o, (parsed, good, inserted parsed i p at o))
      done parsed good (turned_down no_place e) =
          let o = register_parsed parsed good ∙ e in inr (ap (λ o. o.0) o, kept o)

      cases : ((parse ≡ none) ⊎ ((parsed : Entry) × (parse ≡ some parsed))) → Effect
      cases (inl bad) = inr (ap (λ o. o.0) (register_refused bad), kept (register_refused bad))
      cases (inr (parsed, good)) = done parsed good (claim-Claimed fd parsed now (init r))
