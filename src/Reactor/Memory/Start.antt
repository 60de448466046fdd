-- ===== src/Reactor/Memory/Start.antt =====
-- The loop of main that gives the reactor its ports, on a memory.
use mathlib.Core.Option
use embedded_device_forwarde.Prelude.{
  ℕ, zero, suc, ◌≡◌, ◌≢◌, refl, ap, sym, ◌∙◌, subst, List, [], ◌∷◌, Bool, true, false, Option, none,
  some, All, get_elem?, length, replicate, if◌then◌else◌, if_true, Bool-cases, inl, inr,
}
use embedded_device_forwarde.Prelude.Int.{ℤ, int_eq, is_negative}
use embedded_device_forwarde.Config.Types.{Port, PortDef, base, max_ports}
use embedded_device_forwarde.Ports.Table.{Slot, put, add_port}
use embedded_device_forwarde.Main.Startup.{add_ports, empty_table}
use embedded_device_forwarde.Reactor.Memory.{
  Addr, static, update, Memory, zero_ptr, config_cell, loaded, put_ptr, add_at, reactor_add_port,
  add_all, started,
}
use embedded_device_forwarde.Reactor.Memory.Update.{watch_other}
use embedded_device_forwarde.Reactor.Memory.Erase.{erase, erase-put_ptr}
use embedded_device_forwarde.Reactor.Memory.Slots.{Good, Distinct}
use embedded_device_forwarde.Reactor.Memory.Invariant.{IsSound, add_at-IsSound}
use embedded_device_forwarde.Reactor.Memory.Events.{slots_of}

-- Open ports have different fds. `load_config` leaves fd 0 on each tty port without a `tty` object, so
-- that two of them break this, if their opening leaves it as it is.
abbrev pub OwnFds : List PortDef → Type 0
OwnFds [] = Unit
OwnFds (p ∷ ps) = (is_negative p.fd ≡ false → All (λ q. q.fd ≢ p.fd) ps) × OwnFds ps

-- epoll has none of the open ports' fds.
abbrev Unwatched : (ℤ → Option Addr) → List PortDef → Type 0
Unwatched watched ps = All (λ q. is_negative q.fd ≡ false → watched q.fd ≡ none) ps

-- `reactor_add_port` on the port at an address.
add_at-table :
    (p : Port) (a : Addr) (m : Memory)
    → m.cell a ≡ some p
    → slots_of (add_at p a m) ≡ (add_port p (slots_of m)).0
unfolding add_port
add_at-table p a m live = choose (is_negative p.fd)
  where
    choose :
        (negative : Bool)
        → slots_of (
            if negative then m else record m {
              table = put_ptr p.fd a m.table;
              watched = update int_eq m.watched p.fd (some a);
            })
          ≡ (let r : List Slot × Option ℤ =
                if negative then (slots_of m, none) else (put p (slots_of m), some p.fd) in
              r.0)
    choose true = refl
    choose false = erase-put_ptr m.cell p a m.table live

add_at-Unwatched :
    (p : PortDef) (a : Addr) (m : Memory) (ps : List PortDef)
    → (is_negative p.fd ≡ false → All (λ q. q.fd ≢ p.fd) ps)
    → Unwatched m.watched ps
    → Unwatched (add_at (base p) a m).watched ps
add_at-Unwatched p a m ps own h = choose (is_negative p.fd) refl
  where
    others :
        (qs : List PortDef)
        → All (λ q. q.fd ≢ p.fd) qs
        → Unwatched m.watched qs
        → Unwatched (update int_eq m.watched p.fd (some a)) qs
    others [] ne u = tt
    others (q ∷ qs) ne u =
        (λ o. watch_other m.watched p.fd q.fd (some a) ne.0 ∙ u.0 o, others qs ne.1 u.1)

    choose :
        (negative : Bool)
        → is_negative p.fd ≡ negative
        → Unwatched
            (let r : Memory = if negative then m else record m {
              table = put_ptr p.fd a m.table;
              watched = update int_eq m.watched p.fd (some a);
            } in
              r.watched)
            ps
    choose true e = h
    choose false e = others ps (own e) h

-- A memory that the loop may leave.
pub record IsStarted (defs : List PortDef) (table : List Slot) (r : Option Memory) : Type 0 where
  pub memory : Memory
  pub result : r ≡ some memory
  pub sound : IsSound memory
  pub same : slots_of memory ≡ table
  pub kept : (i : ℕ) → memory.cell (static i) ≡ config_cell defs (static i)

-- The rest of the configured ports, from the i-th on.
abbrev Rest : List PortDef → ℕ → List PortDef → Type 0
Rest defs i [] = Unit
Rest defs i (p ∷ ps) = (get_elem? defs i ≡ some p) × Rest defs (suc i) ps

Rest-cons :
    (p : PortDef) (defs : List PortDef) (i : ℕ) (ps : List PortDef)
    → Rest defs i ps
    → Rest (p ∷ defs) (suc i) ps
Rest-cons p defs i [] h = tt
Rest-cons p defs i (q ∷ ps) h = (h.0, Rest-cons p defs (suc i) ps h.1)

Rest-all : (defs : List PortDef) → Rest defs 0 defs
Rest-all [] = tt
Rest-all (p ∷ ps) = (refl, Rest-cons p ps 0 ps (Rest-all ps))

add_at_unwatched-IsSound :
    (p : PortDef) (a : Addr) (m : Memory)
    → m.cell a ≡ some (base p)
    → (is_negative p.fd ≡ false → m.watched p.fd ≡ none)
    → IsSound m
    → IsSound (add_at (base p) a m)
add_at_unwatched-IsSound p a m live new v = elim (Bool-cases (is_negative p.fd)) [
  | inl b ↦
      subst IsSound
        (sym (
          if_true (is_negative p.fd) m
            (record m {
              table = put_ptr p.fd a m.table;
              watched = update int_eq m.watched p.fd (some a);
            })
            b))
        v
  | inr b ↦ add_at-IsSound (base p) a m live (new b) v
]

add_at-cell : (p : Port) (a : Addr) (m : Memory) → (add_at p a m).cell ≡ m.cell
add_at-cell p a m = choose (is_negative p.fd)
  where
    choose :
        (negative : Bool)
        → (let r : Memory = if negative then m else record m {
          table = put_ptr p.fd a m.table;
          watched = update int_eq m.watched p.fd (some a);
        } in
            r.cell)
          ≡ m.cell
    choose true = refl
    choose false = refl

add_all-suc :
    (i n : ℕ) (p : Port) (m : Memory)
    → m.cell (static i) ≡ some p
    → add_all i (suc n) m ≡ add_all (suc i) n (add_at p (static i) m)
unfolding add_all reactor_add_port
add_all-suc i n p m live = rw (add_all, reactor_add_port, live) refl

add_all-IsStarted :
    (defs ps : List PortDef) (i : ℕ) (m : Memory)
    → Rest defs i ps
    → OwnFds ps
    → Unwatched m.watched ps
    → IsSound m
    → m.cell ≡ config_cell defs
    → IsStarted defs (add_ports ps (slots_of m)) (add_all i (length ps) m)
unfolding add_ports add_all
add_all-IsStarted defs [] i m at own h v e = record {
  memory = m;
  result = refl;
  sound = v;
  same = refl;
  kept = λ j. ap (λ c. c (static j)) e;
}
add_all-IsStarted defs (p ∷ ps) i m at own h v e =
    let a = static i in
    let live : m.cell a ≡ some (base p) = ap (λ c. c a) e ∙ ap (Option.map base) at.0 in
    let m' = add_at (base p) a m in
    let rest =
      add_all-IsStarted defs ps (suc i) m' at.1 own.1 (add_at-Unwatched p a m ps own.0 h.1)
        (add_at_unwatched-IsSound p a m live h.0 v) (add_at-cell (base p) a m ∙ e) in
    record {
      memory = rest.memory;
      result = add_all-suc i (length ps) (base p) m live ∙ rest.result;
      sound = rest.sound;
      same = rest.same ∙ ap (add_ports ps) (add_at-table (base p) a m live);
      kept = rest.kept;
    }

-- The memory before the loop.
zero-Good :
    (n : ℕ) (cell : Addr → Option Port) → All (Good cell (λ fd. none)) (replicate n zero_ptr)
zero-Good zero cell = tt
zero-Good (suc n) cell = (inl (refl, refl), zero-Good n cell)

zero-Distinct : (n : ℕ) → Distinct (replicate n zero_ptr)
zero-Distinct zero = tt
zero-Distinct (suc n) = (λ used. cc used, zero-Distinct n)

nil-Unwatched : (ps : List PortDef) → Unwatched (λ fd. none) ps
nil-Unwatched [] = tt
nil-Unwatched (p ∷ ps) = (λ o. refl, nil-Unwatched ps)

-- The table of the loop is that of Main/Startup.
pub started-IsStarted :
    (defs : List PortDef) → OwnFds defs → IsStarted defs (add_ports defs empty_table) (started defs)
unfolding erase
started-IsStarted defs own =
    add_all-IsStarted defs defs 0 (loaded defs) (Rest-all defs) own (nil-Unwatched defs)
      (record {
        unallocated = λ n h. refl;
        slots = zero-Good max_ports (config_cell defs);
        distinct = zero-Distinct max_ports;
        polled = λ fd a e. absurd (cc e);
      })
      refl
