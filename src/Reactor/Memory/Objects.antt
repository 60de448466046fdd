-- ===== src/Reactor/Memory/Objects.antt =====
-- What an event does to the objects in memory.
use embedded_device_forwarde.Prelude.{
  ℕ, suc, ◌≡◌, refl, ap, sym, ◌∙◌, List, [], ◌∷◌, Bool, true, false, Bool-cases, Option, none, some,
  ◌⊎◌, inl, inr, if◌then◌else◌, if_true, if_false,
}
use embedded_device_forwarde.Prelude.Int.{int_eq, is_negative}
use embedded_device_forwarde.Config.Types.{Port, PortType, is_client}
use embedded_device_forwarde.Reactor.Turn.{client_port}
use embedded_device_forwarde.Reactor.Memory.{
  Addr, static, calloced, addr_eq, update, Memory, PtrEvent, put_ptr, remove_ptr, pointer_of,
  reactor_add_port, free, on_end, on_connect, serve, on_event,
}

-- The objects after an event on this port: those before it, with a new one, or without the one that
-- the table held for the fd.
pub data After (ev : PtrEvent) (m : Memory) (q : Port) (cell : Addr → Option Port) : Type 0 where
  unchanged :
      cell ≡ m.cell
      → (is_client q.kind ≡ true → ev.bytes ≡ [] → pointer_of q.fd m.table ≡ none)
      → After ev m q cell
  allocated :
      (c : Port)
      → is_client q.kind ≡ false
      → cell ≡ update addr_eq m.cell (calloced m.next) (some c)
      → After ev m q cell
  freed :
      (b : Addr)
      → is_client q.kind ≡ true
      → ev.bytes ≡ []
      → pointer_of q.fd m.table ≡ some b
      → cell ≡ update addr_eq m.cell b none
      → After ev m q cell

cell_of : Memory → Option Memory → Addr → Option Port
cell_of m none = m.cell
cell_of m (some u) = u.cell

-- `reactor_add_port` leaves the objects alone.
cell-reactor_add_port : (a : Addr) (m : Memory) → cell_of m (reactor_add_port a m) ≡ m.cell
unfolding cell_of reactor_add_port
cell-reactor_add_port a m = choose (m.cell a)
  where
    added : (p : Port) (negative : Bool) → Memory
    added p negative = if negative then m else record m {
      table = put_ptr p.fd a m.table;
      watched = update int_eq m.watched p.fd (some a);
    }

    cell-added : (p : Port) (negative : Bool) → (added p negative).cell ≡ m.cell
    cell-added p true = refl
    cell-added p false = refl

    choose :
        (o : Option Port)
        → cell_of m (elim o [ none ↦ none | some p ↦ some (added p (is_negative p.fd)) ]) ≡ m.cell
    choose none = refl
    choose (some p) = cell-added p (is_negative p.fd)

free-After :
    (o : Option Addr) (m u : Memory)
    → free o m ≡ some u
    → ((o ≡ none) × (u.cell ≡ m.cell))
      ⊎ ((b : Addr) × (o ≡ some b) × (u.cell ≡ update addr_eq m.cell b none))
unfolding free cell_of
free-After none m u e = inl (refl, ap (cell_of m) (sym e))
free-After (some (static i)) m u e = absurd (cc e)
free-After (some (calloced n)) m u e = inr (calloced n, refl, choose (m.cell (calloced n)) e)
  where
    choose :
        (live : Option Port)
        → elim live [
          | none ↦ none
          | some p ↦ some (record m { cell = update addr_eq m.cell (calloced n) none })
        ]
          ≡ some u
        → u.cell ≡ update addr_eq m.cell (calloced n) none
    choose none k = absurd (cc k)
    choose (some p) k = ap (cell_of m) (sym k)

on_connect-After :
    (kind : PortType) (ev : PtrEvent) (m u : Memory) (q : Port)
    → is_client q.kind ≡ false
    → on_connect kind q ev.accepted m ≡ some u
    → After ev m q u.cell
unfolding on_connect cell_of
on_connect-After kind ev m u q server e = elim (Bool-cases (is_negative ev.accepted)) [
  | inl b ↦
      let same = sym (if_true (is_negative ev.accepted) (some m) add b) ∙ e in
      unchanged (ap (cell_of m) (sym same)) (λ client ended. cc (server, client))
  | inr b ↦
      let same = sym (if_false (is_negative ev.accepted) (some m) add b) ∙ e in
      allocated (client_port kind q ev.accepted) server
        (ap (cell_of given) (sym same) ∙ cell-reactor_add_port (calloced m.next) given)
]
  where
    given : Memory
    given = record m {
      cell = update addr_eq m.cell (calloced m.next) (some (client_port kind q ev.accepted));
      next = suc m.next;
    }

    add : Option Memory
    add = reactor_add_port (calloced m.next) given

on_end-After :
    (ev : PtrEvent) (m u : Memory) (q : Port)
    → ev.bytes ≡ []
    → on_end q m ≡ some u
    → After ev m q u.cell
unfolding on_end cell_of
on_end-After ev m u q ended e = elim (Bool-cases (is_client q.kind)) [
  | inl client ↦
      let freeing = sym (if_true (is_client q.kind) release (some closed) client) ∙ e in
      elim (free-After (pointer_of q.fd m.table) closed u freeing) [
        | inl (null, same) ↦ unchanged same (λ c n. null)
        | inr (b, held, gone) ↦ freed b client ended held gone
      ]
  | inr other ↦
      let same = sym (if_false (is_client q.kind) release (some closed) other) ∙ e in
      unchanged (ap (cell_of m) (sym same)) (λ client n. cc (other, client))
]
  where
    closed : Memory
    closed = record m {
      table = remove_ptr q.fd m.table;
      watched = update int_eq m.watched q.fd none;
    }

    release : Option Memory
    release = free (pointer_of q.fd m.table) closed

on_read-After :
    (bytes : List ℕ) (ev : PtrEvent) (m u : Memory) (q : Port)
    → ev.bytes ≡ bytes
    → elim bytes [ [] ↦ on_end q m | b ∷ rest ↦ some m ] ≡ some u
    → After ev m q u.cell
unfolding cell_of
on_read-After [] ev m u q ended e = on_end-After ev m u q ended e
on_read-After (b ∷ bytes) ev m u q some_read e =
    unchanged (ap (cell_of m) (sym e)) (λ client ended. cc (some_read, ended))

serve-After :
    (kind : PortType) (ev : PtrEvent) (m u : Memory) (q : Port)
    → q.kind ≡ kind
    → serve kind q ev m ≡ some u
    → After ev m q u.cell
unfolding serve
serve-After PortType.tcp_server ev m u q k e =
    on_connect-After PortType.tcp_client ev m u q (ap is_client k) e
serve-After PortType.ipc_server ev m u q k e =
    on_connect-After PortType.ipc_client ev m u q (ap is_client k) e
serve-After _ ev m u q k e = on_read-After ev.bytes ev m u q refl e

pub on_event-After :
    (ev : PtrEvent) (m u : Memory) (q : Port)
    → m.cell ev.ptr ≡ some q
    → on_event ev m ≡ some u
    → After ev m q u.cell
unfolding on_event
on_event-After ev m u q live e =
    serve-After q.kind ev m u q refl (sym (rw (on_event, live) refl) ∙ e)
