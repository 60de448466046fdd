-- ===== src/Reactor/Memory.antt =====
-- reactor.c and the block of main that calls `reactor_add_port`, on the memory that ports are in: the
-- static array of g_config, and what `calloc` gives for an accepted connection. g_port_table and epoll
-- hold addresses here; a use of freed memory or a wrong `free` is a fault, which is none.
pub mod Update
pub mod Erase
pub mod Slots
pub mod Invariant
pub mod Events
pub mod Safety
pub mod Start
pub mod Run
pub mod Objects
pub mod Freed
mod Examples
use mathlib.Core.Option
use embedded_device_forwarde.Prelude.{
  ℕ, zero, suc, ◌==◌, ◌≡◌, ◌≢◌, List, [], ◌∷◌, Bool, true, false, Option, none, some, get_elem?,
  length, replicate, if◌then◌else◌, ◌&&◌,
}
use embedded_device_forwarde.Prelude.Int.{ℤ, minus_one, pos, int_eq, is_negative}
use embedded_device_forwarde.Config.Types.{PortType, Port, PortDef, base, max_ports, is_client}
use embedded_device_forwarde.Ports.Table.{Slot}
use embedded_device_forwarde.Reactor.Turn.{client_port}

-- `&g_config.ports[i]`, and the n-th result of `calloc`.
pub data Addr : Type 0 where
  static calloced : ℕ → Addr

abbrev pub addr_eq : Addr → Addr → Bool
addr_eq (static i) (static j) = i == j
addr_eq (calloced i) (calloced j) = i == j
addr_eq _ _ = false

-- The function with another value at one argument.
abbrev pub update : {A V : Type 0} → (A → A → Bool) → (A → V) → A → V → A → V
update eq f a v x = if eq x a then v else f x

-- `port_entry_t`.
pub record PtrSlot : Type 0 where
  pub used : Bool
  pub fd : ℤ
  pub port : Option Addr

abbrev pub cleared : PtrSlot
cleared = record { used = false; fd = minus_one; port = none }

-- The port at an address, none if there is no object there; how often `calloc` was called;
-- g_port_table; and what epoll watches, with the `data.ptr` of each fd.
pub record Memory : Type 0 where
  pub cell : Addr → Option Port
  pub next : ℕ
  pub table : List PtrSlot
  pub watched : ℤ → Option Addr

unfoldable pub put_ptr : ℤ → Addr → List PtrSlot → List PtrSlot
put_ptr fd a [] = []
put_ptr fd a (s ∷ ss) =
    let rest = put_ptr fd a ss in
    if s.used then s ∷ rest else record { used = true; fd = fd; port = some a } ∷ ss

-- `reactor_add_port` of the address, at which there is this port.
abbrev pub add_at : Port → Addr → Memory → Memory
add_at p a m = if is_negative p.fd then m else record m {
  table = put_ptr p.fd a m.table;
  watched = update int_eq m.watched p.fd (some a);
}

unfoldable pub reactor_add_port : Addr → Memory → Option Memory
reactor_add_port a m = elim (m.cell a) [ none ↦ none | some p ↦ some (add_at p a m) ]

-- `free`, of NULL or of an address.
unfoldable pub free : Option Addr → Memory → Option Memory
free none m = some m
free (some (static i)) m = none
free (some (calloced n)) m = elim (m.cell (calloced n)) [
  | none ↦ none
  | some p ↦ some (record m { cell = update addr_eq m.cell (calloced n) none })
]

-- The slot that the loop at the end of a connection stops at: its pointer, and the table with the slot
-- cleared.
unfoldable pub pointer_of : ℤ → List PtrSlot → Option Addr
pointer_of fd [] = none
pointer_of fd (s ∷ ss) =
    let rest = pointer_of fd ss in if s.used && int_eq s.fd fd then s.port else rest

unfoldable pub remove_ptr : ℤ → List PtrSlot → List PtrSlot
remove_ptr fd [] = []
remove_ptr fd (s ∷ ss) =
    let rest = remove_ptr fd ss in if s.used && int_eq s.fd fd then cleared ∷ ss else s ∷ rest

-- The end of a connection: `epoll_ctl`, `close`, and the loop with its `free`.
unfoldable pub on_end : Port → Memory → Option Memory
on_end p m =
    let after = record m {
      table = remove_ptr p.fd m.table;
      watched = update int_eq m.watched p.fd none;
    } in
    if is_client p.kind then free (pointer_of p.fd m.table) after else some after

-- `accept` has given `fd`; `calloc` gives memory.
unfoldable pub on_connect : PortType → Port → ℤ → Memory → Option Memory
on_connect kind server fd m =
    let added = reactor_add_port (calloced m.next) (record m {
      cell = update addr_eq m.cell (calloced m.next) (some (client_port kind server fd));
      next = suc m.next;
    }) in
    if is_negative fd then some m else added

-- An event of `epoll_wait`: its `data.ptr`, and what `accept` and `read` return if they are called.
pub record PtrEvent : Type 0 where
  pub ptr : Addr
  pub accepted : ℤ
  pub bytes : List ℕ

-- The event on the port at its address.
unfoldable pub serve : PortType → Port → PtrEvent → Memory → Option Memory
serve PortType.tcp_server p ev m = on_connect PortType.tcp_client p ev.accepted m
serve PortType.ipc_server p ev m = on_connect PortType.ipc_client p ev.accepted m
serve _ p ev m = elim ev.bytes [ [] ↦ on_end p m | b ∷ bytes ↦ some m ]

unfoldable pub on_event : PtrEvent → Memory → Option Memory
on_event ev m = elim (m.cell ev.ptr) [ none ↦ none | some p ↦ serve p.kind p ev m ]

-- A slot of g_port_table when the program starts.
abbrev pub zero_ptr : PtrSlot
zero_ptr = record { used = false; fd = pos 0; port = none }

abbrev pub config_cell : List PortDef → Addr → Option Port
config_cell defs (static i) = Option.map base (get_elem? defs i)
config_cell defs (calloced n) = none

-- Memory when the ports of the configuration have been opened.
abbrev pub loaded : List PortDef → Memory
loaded defs = record {
  cell = config_cell defs;
  next = 0;
  table = replicate max_ports zero_ptr;
  watched = λ fd. none;
}

-- The loop of `main` over the ports of the configuration: so many from the i-th on.
unfoldable pub add_all : ℕ → ℕ → Memory → Option Memory
add_all i zero m = some m
add_all i (suc n) m = elim (reactor_add_port (static i) m) [
  | none ↦ none
  | some added ↦ add_all (suc i) n added
]

abbrev pub started : List PortDef → Option Memory
started defs = add_all 0 (length defs) (loaded defs)
