-- ===== src/Ports/Table.antt =====
-- `g_port_table` and `port_find` of port_manager.c, `reactor_add_port` of reactor.c and the
-- cleaning of the table when a connection ends. A slot holds its port by value; the pointers are in
-- Reactor/Memory.
use embedded_device_forwarde.Prelude.{
  List, [], ◌∷◌, Bool, true, false, Option, none, some, if◌then◌else◌, ◌&&◌,
}
use embedded_device_forwarde.Prelude.Int.{ℤ, minus_one, int_eq, is_negative}
use embedded_device_forwarde.Prelude.Text.{Text, str_eq}
use embedded_device_forwarde.Config.Types.{Port, is_server}

-- `port_entry_t`; a NULL `port` is none.
pub record Slot : Type 0 where
  pub used : Bool
  pub fd : ℤ
  pub port : Option Port

abbrev pub no_slot : Slot
no_slot = record { used = false; fd = minus_one; port = none }

-- One turn of the loop of `port_find`, on a slot's `used` and `port`.
unfoldable pub pick : Text → Bool → Option Port → Option Port → Option Port
pick name false o rest = rest
pick name true none rest = rest
pick name true (some p) rest =
    if str_eq p.name name then if is_server p.kind then rest else some p else rest

-- `port_find(name)`, for a name that is not NULL.
unfoldable pub port_find : Text → List Slot → Option Port
unfolding pick
port_find name [] = none
port_find name (s ∷ ss) = pick name s.used s.port (port_find name ss)

abbrev pub entry : Port → Slot
entry p = record { used = true; fd = p.fd; port = some p }

unfoldable pub put : Port → List Slot → List Slot
put p [] = []
put p (s ∷ ss) = let rest = put p ss in if s.used then s ∷ rest else entry p ∷ ss

-- `reactor_add_port`: the table, and the fd that epoll watches from now on, if any.
unfoldable pub add_port : Port → List Slot → List Slot × Option ℤ
unfolding put
add_port p ss = if is_negative p.fd then (ss, none) else (put p ss, some p.fd)

-- What `reactor_thread` does to the table when a connection ends.
unfoldable pub remove_fd : ℤ → List Slot → List Slot
remove_fd fd [] = []
remove_fd fd (s ∷ ss) =
    let rest = remove_fd fd ss in if s.used && int_eq s.fd fd then no_slot ∷ ss else s ∷ rest
