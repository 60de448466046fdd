-- ===== src/Reactor/Memory/Erase.antt =====
-- The table with each pointer replaced by the port that it points to, which is what Ports/Table and
-- Reactor/Turn compute with.
use embedded_device_forwarde.Prelude.{
  ◌≡◌, ◌≢◌, refl, ap, ap₂, List, [], ◌∷◌, Bool, true, false, Option, none, some, All, Bool-cases,
  inl, inr, ◌&&◌, if◌then◌else◌,
}
use embedded_device_forwarde.Prelude.Int.{ℤ, int_eq}
use embedded_device_forwarde.Config.Types.{Port}
use embedded_device_forwarde.Ports.Table.{Slot, put, entry, remove_fd}
use embedded_device_forwarde.Reactor.Memory.{Addr, addr_eq, update, PtrSlot, put_ptr, remove_ptr}
use embedded_device_forwarde.Reactor.Memory.Update.{cell_other}

abbrev pub pointee : (Addr → Option Port) → Option Addr → Option Port
pointee cell none = none
pointee cell (some a) = cell a

abbrev pub erase_slot : (Addr → Option Port) → PtrSlot → Slot
erase_slot cell s = record { used = s.used; fd = s.fd; port = pointee cell s.port }

unfoldable pub erase : (Addr → Option Port) → List PtrSlot → List Slot
erase cell [] = []
erase cell (s ∷ ss) = erase_slot cell s ∷ erase cell ss

-- The slot does not hold this address.
abbrev pub Apart : Addr → PtrSlot → Type 0
Apart a s = s.port ≢ some a

pointee-update :
    (cell : Addr → Option Port) (a : Addr) (v : Option Port) (o : Option Addr)
    → o ≢ some a
    → pointee (update addr_eq cell a v) o ≡ pointee cell o
pointee-update cell a v none h = refl
pointee-update cell a v (some b) h = cell_other cell a b v (λ e. h (ap some e))

-- What becomes of an object that no slot points to does not matter.
pub erase-update :
    (cell : Addr → Option Port) (a : Addr) (v : Option Port) (ss : List PtrSlot)
    → All (Apart a) ss
    → erase (update addr_eq cell a v) ss ≡ erase cell ss
unfolding erase
erase-update cell a v [] h = refl
erase-update cell a v (s ∷ ss) h =
    ap₂ (λ o rest. record { used = s.used; fd = s.fd; port = o } ∷ rest)
      (pointee-update cell a v s.port h.0) (erase-update cell a v ss h.1)

pub erase-put_ptr :
    (cell : Addr → Option Port) (p : Port) (a : Addr) (ss : List PtrSlot)
    → cell a ≡ some p
    → erase cell (put_ptr p.fd a ss) ≡ put p (erase cell ss)
unfolding erase put put_ptr
erase-put_ptr cell p a [] h = refl
erase-put_ptr cell p a (s ∷ ss) h = choose s.used (erase-put_ptr cell p a ss h)
  where
    choose :
        (used : Bool)
        → erase cell (put_ptr p.fd a ss) ≡ put p (erase cell ss)
        → erase cell (
            if used
            then s ∷ put_ptr p.fd a ss
            else record { used = true; fd = p.fd; port = some a } ∷ ss)
          ≡ (if used then erase_slot cell s ∷ put p (erase cell ss) else entry p ∷ erase cell ss)
    choose true rest = ap (λ l. erase_slot cell s ∷ l) rest
    choose false rest = ap (λ o. record { used = true; fd = p.fd; port = o } ∷ erase cell ss) h

pub erase-remove_ptr :
    (cell : Addr → Option Port) (fd : ℤ) (ss : List PtrSlot)
    → erase cell (remove_ptr fd ss) ≡ remove_fd fd (erase cell ss)
unfolding erase remove_fd remove_ptr
erase-remove_ptr cell fd [] = refl
erase-remove_ptr cell fd (s ∷ ss) = elim (Bool-cases (s.used && int_eq s.fd fd)) [
  | inl b ↦ rw b refl
  | inr b ↦ rw b (ap (λ l. erase_slot cell s ∷ l) (erase-remove_ptr cell fd ss))
]
