-- ===== src/Reactor/Memory/Events.antt =====
-- What `accept` and the end of a connection do to a sound memory.
use embedded_device_forwarde.Prelude.{
  arith, ℕ, suc, ◌≡◌, refl, ap, sym, ◌∙◌, subst, List, [], Bool, true, false, Option, none, some,
  if_true, if_false, arith, Bool-cases, ◌⊎◌, inl, inr,
}
use embedded_device_forwarde.Prelude.Int.{ℤ, int_eq, is_negative}
use embedded_device_forwarde.Config.Types.{Port, PortType, is_client}
use embedded_device_forwarde.Ports.Table.{Slot, put, remove_fd}
use embedded_device_forwarde.Reactor.Turn.{client_port, on_accept}
use embedded_device_forwarde.Reactor.Accept.{on_accept-put}
use embedded_device_forwarde.Reactor.Memory.{
  Addr, static, calloced, addr_eq, update, Memory, put_ptr, remove_ptr, pointer_of,
  reactor_add_port, free, on_end, on_connect, PtrEvent,
}
use embedded_device_forwarde.Reactor.Memory.Update.{cell_self, watch_self}
use embedded_device_forwarde.Reactor.Memory.Erase.{
  erase, erase-update, erase-put_ptr, erase-remove_ptr,
}
use embedded_device_forwarde.Reactor.Memory.Slots.{
  All-map, Good-Apart, Good-Apart_of_none, pointer_of-Good,
}
use embedded_device_forwarde.Reactor.Memory.Invariant.{
  IsSound, add_at-IsSound, allocate-IsSound, forget-IsSound, free-IsSound,
}

-- The table as Ports/Table has it.
abbrev pub slots_of : Memory → List Slot
slots_of m = erase m.cell m.table

-- What the system gives: the event is on an fd that epoll has, with the pointer that it has for it,
-- and `accept` gives no fd that is open.
pub record IsPossible (ev : PtrEvent) (m : Memory) : Type 0 where
  pub fd : ℤ
  pub ready : m.watched fd ≡ some ev.ptr
  pub opened : is_negative ev.accepted ≡ false → m.watched ev.accepted ≡ none

-- The result is a memory that is sound, and has this table; the configured ports are as they were.
pub record Becomes (m : Memory) (r : Option Memory) (table : List Slot) : Type 0 where
  pub after : Memory
  pub result : r ≡ some after
  pub sound : IsSound after
  pub same : slots_of after ≡ table
  pub kept : (i : ℕ) → after.cell (static i) ≡ m.cell (static i)

-- The end of a connection whose port `calloc` has not given, but which is taken for one that it has.
pub record IsWrongFree (ev : PtrEvent) (m : Memory) : Type 0 where
  pub index : ℕ
  pub at : ev.ptr ≡ static index
  pub port : Port
  pub live : m.cell ev.ptr ≡ some port
  pub client : is_client port.kind ≡ true
  pub ended : ev.bytes ≡ []
  pub listed : pointer_of port.fd m.table ≡ some ev.ptr

-- What `reactor_add_port` does with a live port that is open.
reactor_add_port-live :
    (p : Port) (a : Addr) (m : Memory)
    → m.cell a ≡ some p
    → is_negative p.fd ≡ false
    → reactor_add_port a m
      ≡ some (record m {
        table = put_ptr p.fd a m.table;
        watched = update int_eq m.watched p.fd (some a);
      })
unfolding reactor_add_port
reactor_add_port-live p a m live e =
    rw (reactor_add_port, live)
      (ap some (
        if_false (is_negative p.fd) m
          (record m {
            table = put_ptr p.fd a m.table;
            watched = update int_eq m.watched p.fd (some a);
          })
          e))

pub on_connect-Becomes :
    (kind : PortType) (server : Port) (fd : ℤ) (m : Memory)
    → IsSound m
    → (is_negative fd ≡ false → m.watched fd ≡ none)
    → Becomes m (on_connect kind server fd m) (on_accept kind server fd (slots_of m)).table
unfolding on_connect on_accept reactor_add_port
on_connect-Becomes kind server fd m v new = choose (is_negative fd) refl
  where
    a : Addr
    a = calloced m.next

    c : Port
    c = client_port kind server fd

    given : Memory
    given = record m { cell = update addr_eq m.cell a (some c); next = suc m.next }

    live : given.cell a ≡ some c
    live = cell_self m.cell a (some c)

    kept : erase given.cell m.table ≡ erase m.cell m.table
    kept = erase-update m.cell a (some c) m.table (
        All-map (λ s. Good-Apart_of_none m.cell m.watched a s (v.unallocated m.next (omega arith)))
          m.table v.slots)

    choose :
        (negative : Bool)
        → is_negative fd ≡ negative
        → Becomes m (on_connect kind server fd m) (on_accept kind server fd (slots_of m)).table
    choose true e = record {
      after = m;
      result = rw e refl;
      sound = v;
      same = rw e refl;
      kept = λ i. refl;
    }
    choose false e = record {
      after = record given {
        table = put_ptr fd a m.table;
        watched = update int_eq m.watched fd (some a);
      };
      result =
          if_false (is_negative fd) (some m) (reactor_add_port a given) e
          ∙ reactor_add_port-live c a given live e;
      sound =
          subst IsSound
            (if_false (is_negative fd) given
              (record given {
                table = put_ptr fd a m.table;
                watched = update int_eq m.watched fd (some a);
              })
              e)
            (add_at-IsSound c a given live (new e) (allocate-IsSound c m v));
      same =
          erase-put_ptr given.cell c a m.table live
          ∙ ap (put c) kept
          ∙ sym (ap (λ t. t.table) (on_accept-put kind server fd (slots_of m) e));
      kept = λ i. refl;
    }

-- The memory behind `close`.
abbrev forgotten : ℤ → Memory → Memory
forgotten fd m = record m {
  table = remove_ptr fd m.table;
  watched = update int_eq m.watched fd none;
}

-- `free` of what the table held for the fd.
free-Becomes :
    (p : Port) (a : Addr) (m : Memory)
    → IsSound m
    → m.cell a ≡ some p
    → m.watched p.fd ≡ some a
    → ((pointer_of p.fd m.table ≡ some a) × ((i : ℕ) × (a ≡ static i)))
      ⊎ Becomes m (free (pointer_of p.fd m.table) (forgotten p.fd m)) (remove_fd p.fd (slots_of m))
unfolding free
free-Becomes p a m v live polled =
    elim (pointer_of-Good m.cell m.watched p.fd a m.table polled v.slots) [
      | inr null ↦ inr (record {
        after = forgotten p.fd m;
        result = ap (λ o. free o (forgotten p.fd m)) null;
        sound = forget-IsSound p.fd m v;
        same = erase-remove_ptr m.cell p.fd m.table;
        kept = λ i. refl;
      })
      | inl held ↦ choose a live held
    ]
  where
    choose :
        (a : Addr)
        → m.cell a ≡ some p
        → pointer_of p.fd m.table ≡ some a
        → ((pointer_of p.fd m.table ≡ some a) × ((i : ℕ) × (a ≡ static i)))
          ⊎ Becomes m
              (free (pointer_of p.fd m.table) (forgotten p.fd m))
              (remove_fd p.fd (slots_of m))
    choose (static i) live held = inl (held, (i, refl))
    choose (calloced n) live held =
        let w = forget-IsSound p.fd m v in
        let gone = watch_self m.watched p.fd none in
        inr (record {
          after = record (forgotten p.fd m) { cell = update addr_eq m.cell (calloced n) none };
          result = ap (λ o. free o (forgotten p.fd m)) held ∙ rw (free, live) refl;
          sound = free-IsSound n p (forgotten p.fd m) live gone w;
          same =
              erase-update m.cell (calloced n) none (remove_ptr p.fd m.table) (
                All-map
                  (λ s. Good-Apart m.cell (forgotten p.fd m).watched (calloced n) p s live gone)
                  (remove_ptr p.fd m.table) w.slots)
              ∙ erase-remove_ptr m.cell p.fd m.table;
          kept = λ i. refl;
        })

-- The end of the connection of the port at the address.
pub on_end-Becomes :
    (p : Port) (a : Addr) (m : Memory)
    → IsSound m
    → m.cell a ≡ some p
    → m.watched p.fd ≡ some a
    → ((is_client p.kind ≡ true) × (pointer_of p.fd m.table ≡ some a) × ((i : ℕ) × (a ≡ static i)))
      ⊎ Becomes m (on_end p m) (remove_fd p.fd (slots_of m))
unfolding on_end
on_end-Becomes p a m v live polled = elim (Bool-cases (is_client p.kind)) [
  | inr b ↦ inr (record {
    after = forgotten p.fd m;
    result =
        if_false (is_client p.kind) (free (pointer_of p.fd m.table) (forgotten p.fd m))
          (some (forgotten p.fd m)) b;
    sound = forget-IsSound p.fd m v;
    same = erase-remove_ptr m.cell p.fd m.table;
    kept = λ i. refl;
  })
  | inl b ↦ elim (free-Becomes p a m v live polled) [
    | inl h ↦ inl (b, h.0, h.1)
    | inr h ↦ inr (record {
      after = h.after;
      result =
          if_true (is_client p.kind) (free (pointer_of p.fd m.table) (forgotten p.fd m))
            (some (forgotten p.fd m)) b
          ∙ h.result;
      sound = h.sound;
      same = h.same;
      kept = h.kept;
    })
  ]
]
