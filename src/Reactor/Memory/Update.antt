-- ===== src/Reactor/Memory/Update.antt =====
-- Functions that were changed at one argument, and the equality of addresses.
use embedded_device_forwarde.Prelude.{
  ◌==◌, ==_iff, ==_refl, ◌≡◌, ◌≢◌, refl, ap, true, false, Bool-cases, inl, inr, if_true, if_false,
}
use embedded_device_forwarde.Prelude.Int.{ℤ, int_eq, int_eq_iff, int_eq_refl}
use embedded_device_forwarde.Reactor.Memory.{Addr, static, calloced, addr_eq, update}

pub addr_eq_refl : (a : Addr) → addr_eq a a ≡ true
addr_eq_refl (static i) = ==_refl i
addr_eq_refl (calloced n) = ==_refl n

pub addr_eq-ne : (a b : Addr) → a ≢ b → addr_eq a b ≡ false
addr_eq-ne (static i) (static j) h = elim (Bool-cases (i == j)) [
  | inl e ↦ absurd (h (ap static ((==_iff i j).0 e)))
  | inr e ↦ e
]
addr_eq-ne (static i) (calloced n) h = refl
addr_eq-ne (calloced n) (static i) h = refl
addr_eq-ne (calloced i) (calloced j) h = elim (Bool-cases (i == j)) [
  | inl e ↦ absurd (h (ap calloced ((==_iff i j).0 e)))
  | inr e ↦ e
]

pub addr_eq-eq : (a b : Addr) → addr_eq a b ≡ true → a ≡ b
addr_eq-eq (static i) (static j) e = ap static ((==_iff i j).0 e)
addr_eq-eq (static i) (calloced n) e = absurd (cc e)
addr_eq-eq (calloced n) (static i) e = absurd (cc e)
addr_eq-eq (calloced i) (calloced j) e = ap calloced ((==_iff i j).0 e)

pub int_eq-ne : (a b : ℤ) → a ≢ b → int_eq a b ≡ false
int_eq-ne a b h = elim (Bool-cases (int_eq a b)) [
  | inl e ↦ absurd (h ((int_eq_iff a b).0 e))
  | inr e ↦ e
]

module _ {V : Type 0} where
  pub cell_self : (f : Addr → V) (a : Addr) (v : V) → update addr_eq f a v a ≡ v
  cell_self f a v = if_true (addr_eq a a) v (f a) (addr_eq_refl a)

  pub cell_other : (f : Addr → V) (a b : Addr) (v : V) → b ≢ a → update addr_eq f a v b ≡ f b
  cell_other f a b v h = if_false (addr_eq b a) v (f b) (addr_eq-ne b a h)

  pub watch_self : (f : ℤ → V) (fd : ℤ) (v : V) → update int_eq f fd v fd ≡ v
  watch_self f fd v = if_true (int_eq fd fd) v (f fd) (int_eq_refl fd)

  pub watch_other : (f : ℤ → V) (fd g : ℤ) (v : V) → g ≢ fd → update int_eq f fd v g ≡ f g
  watch_other f fd g v h = if_false (int_eq g fd) v (f g) (int_eq-ne g fd h)
