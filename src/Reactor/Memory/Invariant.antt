-- ===== src/Reactor/Memory/Invariant.antt =====
-- What pointers the reactor keeps, and that each of its operations keeps them so.
use embedded_device_forwarde.Prelude.{
  if_false, if_true, ℕ, suc, ◌≤◌, ◌≡◌, ◌≢◌, refl, ap, sym, ◌∙◌, List, [], ◌∷◌, Bool, true, false,
  Option, none, some, All, if_true, if_false, if◌then◌else◌, Bool-cases, ◌⊎◌, inl, inr, arith,
}
use embedded_device_forwarde.Prelude.Int.{ℤ, int_eq, int_eq_iff, is_negative}
use embedded_device_forwarde.Config.Types.{Port}
use embedded_device_forwarde.Reactor.Memory.{
  Addr, static, calloced, addr_eq, update, PtrSlot, Memory, put_ptr, remove_ptr, add_at,
}
use embedded_device_forwarde.Reactor.Memory.Update.{cell_other, watch_self, watch_other}
use embedded_device_forwarde.Reactor.Memory.Slots.{
  Good, Distinct, FreshFor, FreshFor-ne, All-map, All-put_ptr, All-remove_ptr, Distinct-put_ptr,
  Distinct-remove_ptr, FreshFor-remove_ptr, Good-allocate, Good-watch, Good-other, Good-FreshFor,
  Good-Apart, Good-free,
}

-- There is a port with this fd at the address.
abbrev pub PortAt : (Addr → Option Port) → ℤ → Addr → Type 0
PortAt cell fd a = (p : Port) × (cell a ≡ some p) × (p.fd ≡ fd)

-- `calloc` has given no memory that it is still to give; a used slot points to a live port with the fd
-- that it is watched under; no two have the same fd; and what epoll points to is a live port with
-- the fd.
pub record IsSound (m : Memory) : Type 0 where
  pub unallocated : (n : ℕ) → m.next ≤ n → m.cell (calloced n) ≡ none
  pub slots : All (Good m.cell m.watched) m.table
  pub distinct : Distinct m.table
  pub polled : (fd : ℤ) (a : Addr) → m.watched fd ≡ some a → PortAt m.cell fd a

PortAt-other :
    (cell : Addr → Option Port) (a b : Addr) (v : Option Port) (fd : ℤ)
    → b ≢ a
    → PortAt cell fd b
    → PortAt (update addr_eq cell a v) fd b
PortAt-other cell a b v fd h (p, live, e) = (p, cell_other cell a b v h ∙ live, e)

-- What epoll has after one fd got another address, or none.
watched-cases :
    (watched : ℤ → Option Addr) (fd : ℤ) (v : Option Addr) (g : ℤ) (a : Addr)
    → update int_eq watched fd v g ≡ some a
    → ((g ≡ fd) × (v ≡ some a)) ⊎ ((g ≢ fd) × (watched g ≡ some a))
watched-cases watched fd v g a e = elim (Bool-cases (int_eq g fd)) [
  | inl b ↦
      let same = (int_eq_iff g fd).0 b in
      inl (same, sym (watch_self watched fd v) ∙ ap (update int_eq watched fd v) (sym same) ∙ e)
  | inr b ↦
      let other : g ≢ fd = λ k. cc (b, (int_eq_iff g fd).1 k) in
      inr (other, sym (watch_other watched fd g v other) ∙ e)
]

-- `reactor_add_port` of a live port, whose fd epoll does not have.
pub add_at-IsSound :
    (p : Port) (a : Addr) (m : Memory)
    → m.cell a ≡ some p
    → m.watched p.fd ≡ none
    → IsSound m
    → IsSound (add_at p a m)
add_at-IsSound p a m live new v = choose (is_negative p.fd)
  where
    added : Memory
    added = record m {
      table = put_ptr p.fd a m.table;
      watched = update int_eq m.watched p.fd (some a);
    }

    polled : (g : ℤ) (b : Addr) → added.watched g ≡ some b → PortAt m.cell g b
    polled g b e = elim (watched-cases m.watched p.fd (some a) g b e) [
      | inl (same, k) ↦ (p, cc (k, live), sym same)
      | inr (other, k) ↦ v.polled g b k
    ]

    good : All (Good m.cell added.watched) m.table
    good =
        All-map
          (λ s g.
            Good-watch m.cell m.watched p.fd (some a) s (Good-other m.cell m.watched p.fd s new g)
              g)
          m.table v.slots

    choose : (negative : Bool) → IsSound (if negative then m else added)
    choose true = v
    choose false = record {
      unallocated = v.unallocated;
      slots =
          All-put_ptr (Good m.cell added.watched) p.fd a m.table
            (inr (record {
              used = refl;
              addr = a;
              port = p;
              points = refl;
              live = live;
              opened = refl;
              polled = watch_self m.watched p.fd (some a);
            }))
            good;
      distinct =
          Distinct-put_ptr p.fd a m.table
            (All-map (λ s. Good-FreshFor m.cell m.watched p.fd s new) m.table v.slots) v.distinct;
      polled = polled;
    }

-- `calloc`, and what is written to its result.
pub allocate-IsSound :
    (p : Port) (m : Memory)
    → IsSound m
    → IsSound
        (record m { cell = update addr_eq m.cell (calloced m.next) (some p); next = suc m.next })
allocate-IsSound p m v =
    let a = calloced m.next in
    let free = v.unallocated m.next (omega arith) in
    record {
      unallocated = λ n h.
          cell_other m.cell a (calloced n) (some p)
            (λ e. let same = calloced_inj n m.next e in omega (arith, same))
          ∙ v.unallocated n (omega arith);
      slots = All-map (λ s. Good-allocate m.cell m.watched a (some p) s free) m.table v.slots;
      distinct = v.distinct;
      polled = λ fd b e.
          let at = v.polled fd b e in
          PortAt-other m.cell a b (some p) fd (λ k. cc (sym free ∙ ap m.cell (sym k) ∙ at.1)) at;
    }
  where
    number : Addr → ℕ
    number (static i) = i
    number (calloced n) = n

    calloced_inj : (i j : ℕ) → calloced i ≡ calloced j → i ≡ j
    calloced_inj i j e = ap number e

-- The end of a connection, up to `free`.
pub forget-IsSound :
    (fd : ℤ) (m : Memory)
    → IsSound m
    → IsSound
        (record m { table = remove_ptr fd m.table; watched = update int_eq m.watched fd none })
forget-IsSound fd m v = record {
  unallocated = v.unallocated;
  slots =
      both (remove_ptr fd m.table)
        (All-remove_ptr (Good m.cell m.watched) fd m.table (inl (refl, refl)) v.slots)
        (FreshFor-remove_ptr fd m.table v.distinct);
  distinct = Distinct-remove_ptr fd m.table v.distinct;
  polled = λ g a e. elim (watched-cases m.watched fd none g a e) [
    | inl (same, k) ↦ absurd (cc k)
    | inr (other, k) ↦ v.polled g a k
  ];
}
  where
    both :
        (ss : List PtrSlot)
        → All (Good m.cell m.watched) ss
        → All (FreshFor fd) ss
        → All (Good m.cell (update int_eq m.watched fd none)) ss
    both [] g f = tt
    both (s ∷ ss) g f = (
      Good-watch m.cell m.watched fd none s (λ used. FreshFor-ne fd s used f.0) g.0,
      both ss g.1 f.1,
    )

-- `free` of a port whose fd epoll does not have.
pub free-IsSound :
    (n : ℕ) (p : Port) (m : Memory)
    → m.cell (calloced n) ≡ some p
    → m.watched p.fd ≡ none
    → IsSound m
    → IsSound (record m { cell = update addr_eq m.cell (calloced n) none })
free-IsSound n p m live gone v =
    let a = calloced n in
    record {
      unallocated = λ k h. elim (Bool-cases (addr_eq (calloced k) a)) [
        | inl b ↦ if_true (addr_eq (calloced k) a) none (m.cell (calloced k)) b
        | inr b ↦ if_false (addr_eq (calloced k) a) none (m.cell (calloced k)) b ∙ v.unallocated k h
      ];
      slots =
          All-map
            (λ s g.
              Good-free m.cell m.watched a none s (Good-Apart m.cell m.watched a p s live gone g) g)
            m.table v.slots;
      distinct = v.distinct;
      polled = λ fd b e.
          let at = v.polled fd b e in
          PortAt-other m.cell a b none fd
            (λ k.
              let same : some at.0 ≡ some p = sym at.1 ∙ ap m.cell k ∙ live in
              cc (same, at.2, gone, e))
            at;
    }
