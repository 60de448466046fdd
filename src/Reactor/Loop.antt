-- ===== src/Reactor/Loop.antt =====
-- reactor.c: the loop of `reactor_thread` over the events of epoll, and what holds throughout.
use embedded_device_forwarde.Prelude.{
  drop, ℕ, ◌+◌, ◌<◌, ◌≡◌, refl, ◌∙◌, List, [], ◌∷◌, ◌++◌, Option, none, length, length-append,
  length-drop, All, All-append, arith, true, false, if◌then◌else◌,
}
use embedded_device_forwarde.Prelude.Int.{ℤ, is_negative}
use embedded_device_forwarde.Prelude.Text.{Text}
use embedded_device_forwarde.Config.Types.{PortType, Port, Route}
use embedded_device_forwarde.EventQueue.Ring.{Event}
use embedded_device_forwarde.Ports.Table.{Slot, put, add_port, remove_fd}
use embedded_device_forwarde.Reactor.Route.{Handler, after_read, buf_size}
use embedded_device_forwarde.Reactor.Bounds.{Fits, Keeps, route_packet-Fits}
use embedded_device_forwarde.Reactor.Turn.{Turn, idle, client_port, on_accept, on_read, turn}

-- An event: the port that epoll gives, what `accept` or `read` would return, and the bytes that the
-- buffer holds before.
pub record Incoming : Type 0 where
  pub port : Port
  pub accepted : ℤ
  pub bytes : List ℕ
  pub stack : List ℕ

-- The events that `epoll_wait` gives while the run flag is set: the table after them, and the
-- messages in the order in which they are pushed.
unfoldable pub reactor_thread :
    (Text → Option Handler) → List Route → List Incoming → List Slot → List Slot × List Event
unfolding turn
reactor_thread handlers routes [] table = (table, [])
reactor_thread handlers routes (ev ∷ evs) table =
    let t = turn handlers routes ev.port.kind ev.port ev.accepted ev.stack ev.bytes table in
    let rest = reactor_thread handlers routes evs t.table in (rest.0, t.pushed ++ rest.1)

-- A read fills 1023 bytes of the 1024 at most.
abbrev pub IsRead : Incoming → Type 0
IsRead ev = (length ev.bytes < buf_size) × (length ev.stack ≡ buf_size)

-- The table keeps its size, and each message is within its array.
unfoldable pub Sound : List Slot → List Slot → List Event → Type 0
Sound before after pushed = (length after ≡ length before) × All Fits pushed

length-put : (p : Port) (ss : List Slot) → length (put p ss) ≡ length ss
unfolding put
length-put p [] = refl
length-put p (s ∷ ss) = ground (arith, length-put p ss)

length-remove_fd : (fd : ℤ) (ss : List Slot) → length (remove_fd fd ss) ≡ length ss
unfolding remove_fd
length-remove_fd fd [] = refl
length-remove_fd fd (s ∷ ss) = ground (arith, length-remove_fd fd ss)

pub length-add_port : (p : Port) (ss : List Slot) → length (add_port p ss).0 ≡ length ss
unfolding add_port
length-add_port p ss = ground (arith, length-put p ss)

module _ (handlers : Text → Option Handler) (routes : List Route) (keeps : Keeps handlers) where
  on_accept-Sound :
      (kind : PortType) (server : Port) (fd : ℤ) (table : List Slot)
      → Sound table (on_accept kind server fd table).table (on_accept kind server fd table).pushed
  unfolding on_accept Sound
  on_accept-Sound kind server fd table =
      let added = add_port (client_port kind server fd) table in
      let made : Turn = record { table = added.0; pushed = []; watched = added.1; closed = none } in
      elim (is_negative fd)
        as (λ b. let t : Turn = if b then idle table else made in Sound table t.table t.pushed) [
          | true ↦ (refl, tt)
          | false ↦ (length-add_port (client_port kind server fd) table, tt)
        ]

  on_read-Sound :
      (port : Port) (stack bytes : List ℕ) (table : List Slot)
      → length bytes < buf_size
      → length stack ≡ buf_size
      → (let t = on_read handlers routes port stack bytes table in Sound table t.table t.pushed)
  unfolding on_read Sound
  on_read-Sound port stack [] table h e = (length-remove_fd port.fd table, tt)
  on_read-Sound port stack (b ∷ bytes) table h e =
      let got = b ∷ bytes in
      (
        refl,
        route_packet-Fits handlers routes port.name (after_read stack got) (length got) keeps
            (omega (
              arith,
              length-append got (0 ∷ drop (length got + 1) stack),
              length-drop (length got + 1) stack,
            ))
            h,
      )

  pub turn-Sound :
      (k : PortType) (port : Port) (fd : ℤ) (stack bytes : List ℕ) (table : List Slot)
      → length bytes < buf_size
      → length stack ≡ buf_size
      → (let t = turn handlers routes k port fd stack bytes table in Sound table t.table t.pushed)
  unfolding turn
  turn-Sound PortType.tcp_server port fd stack bytes table h e =
      on_accept-Sound PortType.tcp_client port fd table
  turn-Sound PortType.ipc_server port fd stack bytes table h e =
      on_accept-Sound PortType.ipc_client port fd table
  turn-Sound _ port fd stack bytes table h e = on_read-Sound port stack bytes table h e

  -- Throughout any events, with handlers that write within the buffer, the table keeps its slots,
  -- and every message that is pushed is at most 1024 bytes long and has as many bytes as it says.
  pub reactor_thread-Sound :
      (evs : List Incoming) (table : List Slot)
      → All IsRead evs
      → (let r = reactor_thread handlers routes evs table in Sound table r.0 r.1)
  unfolding reactor_thread Sound
  reactor_thread-Sound [] table h = (refl, tt)
  reactor_thread-Sound (ev ∷ evs) table h =
      let t = turn handlers routes ev.port.kind ev.port ev.accepted ev.stack ev.bytes table in
      let s = turn-Sound ev.port.kind ev.port ev.accepted ev.stack ev.bytes table h.0.0 h.0.1 in
      let rest = reactor_thread-Sound evs t.table h.1 in
      (
        rest.0 ∙ s.0,
        All-append Fits t.pushed (reactor_thread handlers routes evs t.table).1 s.1 rest.1,
      )
