-- ===== src/Reactor/Memory/Slots.antt =====
-- g_port_table with pointers, slot by slot.
use embedded_device_forwarde.Prelude.{
  ◌≡◌, ◌≢◌, refl, ap, sym, ◌∙◌, subst, List, [], ◌∷◌, Bool, true, false, Option, none, some, All,
  Bool-cases, ◌⊎◌, inl, inr, ◌&&◌, if◌then◌else◌,
}
use embedded_device_forwarde.Prelude.Int.{ℤ, int_eq, int_eq_iff}
use embedded_device_forwarde.Config.Types.{Port}
use embedded_device_forwarde.Reactor.Memory.{
  Addr, addr_eq, update, PtrSlot, cleared, put_ptr, remove_ptr, pointer_of,
}
use embedded_device_forwarde.Reactor.Memory.Update.{cell_other, watch_other, int_eq-ne}
use embedded_device_forwarde.Reactor.Memory.Erase.{Apart, pointee}

-- The slot is used, and points to a live port with its fd, which epoll has for that fd.
pub record Holds (cell : Addr → Option Port) (watched : ℤ → Option Addr) (s : PtrSlot)
    : Type 0 where
  pub used : s.used ≡ true
  pub addr : Addr
  pub port : Port
  pub points : s.port ≡ some addr
  pub live : cell addr ≡ some port
  pub opened : port.fd ≡ s.fd
  pub polled : watched s.fd ≡ some addr

abbrev pub Good : (Addr → Option Port) → (ℤ → Option Addr) → PtrSlot → Type 0
Good cell watched s = ((s.used ≡ false) × (s.port ≡ none)) ⊎ Holds cell watched s

-- The slot is not a used one with this fd.
abbrev pub FreshFor : ℤ → PtrSlot → Type 0
FreshFor fd s = (s.used && int_eq s.fd fd) ≡ false

-- No two used slots have the same fd.
abbrev pub Distinct : List PtrSlot → Type 0
Distinct [] = Unit
Distinct (s ∷ ss) = (s.used ≡ true → All (FreshFor s.fd) ss) × Distinct ss

pub All-map :
    {A : Type 0} {P Q : A → Type 0} → ((a : A) → P a → Q a) → (l : List A) → All P l → All Q l
All-map f [] h = tt
All-map f (a ∷ l) h = (f a h.0, All-map f l h.1)

pub All-put_ptr :
    (P : PtrSlot → Type 0) (fd : ℤ) (a : Addr) (ss : List PtrSlot)
    → P (record { used = true; fd = fd; port = some a })
    → All P ss
    → All P (put_ptr fd a ss)
unfolding put_ptr
All-put_ptr P fd a [] new h = tt
All-put_ptr P fd a (s ∷ ss) new h = choose s.used (All-put_ptr P fd a ss new h.1)
  where
    choose :
        (used : Bool)
        → All P (put_ptr fd a ss)
        → All P (
            if used
            then s ∷ put_ptr fd a ss
            else record { used = true; fd = fd; port = some a } ∷ ss)
    choose true rest = (h.0, rest)
    choose false rest = (new, h.1)

pub All-remove_ptr :
    (P : PtrSlot → Type 0) (fd : ℤ) (ss : List PtrSlot)
    → P cleared
    → All P ss
    → All P (remove_ptr fd ss)
unfolding remove_ptr
All-remove_ptr P fd [] new h = tt
All-remove_ptr P fd (s ∷ ss) new h = elim (Bool-cases (s.used && int_eq s.fd fd)) [
  | inl b ↦ rw b (new, h.1)
  | inr b ↦ rw b (h.0, All-remove_ptr P fd ss new h.1)
]

int_eq_sym : (a b : ℤ) → int_eq a b ≡ false → int_eq b a ≡ false
int_eq_sym a b h = int_eq-ne b a (λ e. cc (h, (int_eq_iff a b).1 (sym e)))

pub FreshFor-ne : (fd : ℤ) (s : PtrSlot) → s.used ≡ true → FreshFor fd s → s.fd ≢ fd
FreshFor-ne fd s used h e = cc (used, h, (int_eq_iff s.fd fd).1 e)

pub Distinct-put_ptr :
    (fd : ℤ) (a : Addr) (ss : List PtrSlot)
    → All (FreshFor fd) ss
    → Distinct ss
    → Distinct (put_ptr fd a ss)
unfolding put_ptr
Distinct-put_ptr fd a [] fresh d = tt
Distinct-put_ptr fd a (s ∷ ss) fresh d = choose s.used refl (Distinct-put_ptr fd a ss fresh.1 d.1)
  where
    choose :
        (used : Bool)
        → s.used ≡ used
        → Distinct (put_ptr fd a ss)
        → Distinct (
            if used
            then s ∷ put_ptr fd a ss
            else record { used = true; fd = fd; port = some a } ∷ ss)
    choose true e rest =
        let other = int_eq_sym s.fd fd (int_eq-ne s.fd fd (FreshFor-ne fd s e fresh.0)) in
        (λ used. All-put_ptr (FreshFor s.fd) fd a ss other (d.0 used), rest)
    choose false e rest = (λ used. fresh.1, d.1)

pub Distinct-remove_ptr : (fd : ℤ) (ss : List PtrSlot) → Distinct ss → Distinct (remove_ptr fd ss)
unfolding remove_ptr
Distinct-remove_ptr fd [] d = tt
Distinct-remove_ptr fd (s ∷ ss) d = elim (Bool-cases (s.used && int_eq s.fd fd)) [
  | inl b ↦ rw b (λ used. cc used, d.1)
  | inr b ↦
      rw b (
        λ used. All-remove_ptr (FreshFor s.fd) fd ss refl (d.0 used),
        Distinct-remove_ptr fd ss d.1,
      )
]

hit_both : (a b : Bool) → (a && b) ≡ true → (a ≡ true) × (b ≡ true)
hit_both true true e = (refl, refl)
hit_both true false e = absurd (cc e)
hit_both false b e = absurd (cc e)

-- Once the slot with the fd is cleared, there is no other.
pub FreshFor-remove_ptr :
    (fd : ℤ) (ss : List PtrSlot) → Distinct ss → All (FreshFor fd) (remove_ptr fd ss)
unfolding remove_ptr
FreshFor-remove_ptr fd [] d = tt
FreshFor-remove_ptr fd (s ∷ ss) d = elim (Bool-cases (s.used && int_eq s.fd fd)) [
  | inl b ↦
      let both = hit_both s.used (int_eq s.fd fd) b in
      rw b (refl, subst (λ g. All (FreshFor g) ss) ((int_eq_iff s.fd fd).0 both.1) (d.0 both.0))
  | inr b ↦ rw b (b, FreshFor-remove_ptr fd ss d.1)
]

module _ (cell : Addr → Option Port) (watched : ℤ → Option Addr) where
  -- A new object at an address without one.
  pub Good-allocate :
      (a : Addr) (v : Option Port) (s : PtrSlot)
      → cell a ≡ none
      → Good cell watched s
      → Good (update addr_eq cell a v) watched s
  Good-allocate a v s e (inl h) = inl h
  Good-allocate a v s e (inr h) = inr (record {
    used = h.used;
    addr = h.addr;
    port = h.port;
    points = h.points;
    live = cell_other cell a h.addr v (λ k. cc (sym e ∙ ap cell (sym k) ∙ h.live)) ∙ h.live;
    opened = h.opened;
    polled = h.polled;
  })

  -- epoll watches another fd, or not.
  pub Good-watch :
      (fd : ℤ) (v : Option Addr) (s : PtrSlot)
      → (s.used ≡ true → s.fd ≢ fd)
      → Good cell watched s
      → Good cell (update int_eq watched fd v) s
  Good-watch fd v s other (inl h) = inl h
  Good-watch fd v s other (inr h) = inr (record {
    used = h.used;
    addr = h.addr;
    port = h.port;
    points = h.points;
    live = h.live;
    opened = h.opened;
    polled = watch_other watched fd s.fd v (other h.used) ∙ h.polled;
  })

  -- A slot whose fd epoll has is not one of an fd that it has not.
  pub Good-other :
      (fd : ℤ) (s : PtrSlot) → watched fd ≡ none → Good cell watched s → s.used ≡ true → s.fd ≢ fd
  Good-other fd s e (inl h) used k = cc (used, h.0)
  Good-other fd s e (inr h) used k = cc (sym e ∙ ap watched (sym k) ∙ h.polled)

  pub Good-FreshFor :
      (fd : ℤ) (s : PtrSlot) → watched fd ≡ none → Good cell watched s → FreshFor fd s
  Good-FreshFor fd s e g = choose s.used refl
    where
      choose : (used : Bool) → s.used ≡ used → (used && int_eq s.fd fd) ≡ false
      choose true u = int_eq-ne s.fd fd (Good-other fd s e g u)
      choose false u = refl

  -- No slot points to a port that epoll does not watch, nor to no object.
  pub Good-Apart :
      (a : Addr) (p : Port) (s : PtrSlot)
      → cell a ≡ some p
      → watched p.fd ≡ none
      → Good cell watched s
      → Apart a s
  Good-Apart a p s live e (inl h) k = cc (k, h.1)
  Good-Apart a p s live e (inr h) k =
      let same_addr : some h.addr ≡ some a = sym h.points ∙ k in
      let same_port : some h.port ≡ some p = sym h.live ∙ ap (pointee cell) same_addr ∙ live in
      cc (same_port, h.opened, h.polled, e)

  pub Good-Apart_of_none :
      (a : Addr) (s : PtrSlot) → cell a ≡ none → Good cell watched s → Apart a s
  Good-Apart_of_none a s e (inl h) k = cc (k, h.1)
  Good-Apart_of_none a s e (inr h) k = cc (k, h.points, h.live, e)

  -- A freed object that no slot points to.
  pub Good-free :
      (a : Addr) (v : Option Port) (s : PtrSlot)
      → Apart a s
      → Good cell watched s
      → Good (update addr_eq cell a v) watched s
  Good-free a v s apart (inl h) = inl h
  Good-free a v s apart (inr h) = inr (record {
    used = h.used;
    addr = h.addr;
    port = h.port;
    points = h.points;
    live = cell_other cell a h.addr v (λ k. apart (h.points ∙ ap some k)) ∙ h.live;
    opened = h.opened;
    polled = h.polled;
  })

  -- The slot that the loop stops at holds the address that epoll has for the fd.
  pub pointer_of-Good :
      (fd : ℤ) (a : Addr) (ss : List PtrSlot)
      → watched fd ≡ some a
      → All (Good cell watched) ss
      → (pointer_of fd ss ≡ some a) ⊎ (pointer_of fd ss ≡ none)
  unfolding pointer_of
  pointer_of-Good fd a [] e h = inr refl
  pointer_of-Good fd a (s ∷ ss) e h = elim (Bool-cases (s.used && int_eq s.fd fd)) [
    | inl b ↦
        rw b (hit (hit_both s.used (int_eq s.fd fd) b).0 (hit_both s.used (int_eq s.fd fd) b).1 h.0)
    | inr b ↦ rw b (pointer_of-Good fd a ss e h.1)
  ]
    where
      hit :
          s.used ≡ true
          → int_eq s.fd fd ≡ true
          → Good cell watched s
          → (s.port ≡ some a) ⊎ (s.port ≡ none)
      hit used same (inl g) = inr g.1
      hit used same (inr g) =
          inl (g.points ∙ sym g.polled ∙ ap watched ((int_eq_iff s.fd fd).0 same) ∙ e)
