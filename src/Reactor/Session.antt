-- ===== src/Reactor/Session.antt =====
-- A whole connection of a client in `reactor_thread`: it is accepted, sends data, and is closed.
use embedded_device_forwarde.Prelude.{
  ℕ, ◌≡◌, refl, ◌∙◌, ap, sym, subst, List, [], ◌∷◌, ◌++◌, true, false, Option, length,
  if◌then◌else◌, ◌&&◌, All, ◌⊎◌, inl, inr, Bool-cases,
}
use embedded_device_forwarde.Prelude.Int.{ℤ, minus_one, int_eq, int_eq_refl, is_negative}
use embedded_device_forwarde.Prelude.Text.{Text}
use embedded_device_forwarde.Config.Types.{PortType, Port, Route, is_server}
use embedded_device_forwarde.EventQueue.Ring.{Event}
use embedded_device_forwarde.Ports.Table.{Slot, put, entry, no_slot, remove_fd}
use embedded_device_forwarde.Reactor.Route.{Handler, after_read, route_packet}
use embedded_device_forwarde.Reactor.Turn.{Turn, client_port, on_accept, on_read, turn}
use embedded_device_forwarde.Reactor.Accept.{on_accept-put}
use embedded_device_forwarde.Reactor.Loop.{Incoming, reactor_thread}

-- A read of at least one byte, and what the buffer held before.
pub record Read : Type 0 where
  pub first : ℕ
  pub others : List ℕ
  pub stack : List ℕ

abbrev pub client_kind : PortType → PortType
client_kind PortType.tcp_server = PortType.tcp_client
client_kind _ = PortType.ipc_client

abbrev pub client_of : Port → ℤ → Port
client_of server fd = client_port (client_kind server.kind) server fd

-- The events on a client: its reads, and then the end of the connection.
abbrev pub reads_then_end : Port → List Read → List Incoming
reads_then_end c [] = record { port = c; accepted = minus_one; bytes = []; stack = [] } ∷ []
reads_then_end c (r ∷ rs) =
    record { port = c; accepted = minus_one; bytes = r.first ∷ r.others; stack = r.stack }
    ∷ reads_then_end c rs

-- The events of the connection that `accept` gives the fd, on this server.
abbrev pub session : Port → ℤ → List Read → List Incoming
session server fd reads =
    record { port = server; accepted = fd; bytes = []; stack = [] }
    ∷ reads_then_end (client_of server fd) reads

-- A slot is as before, or as free as before.
abbrev pub SameSlot : Slot → Slot → Type 0
SameSlot s t = (t ≡ s) ⊎ ((s.used ≡ false) × (t.used ≡ false))

unfoldable pub Same : List Slot → List Slot → Type 0
Same [] [] = Unit
Same [] (t ∷ ts) = ⊥
Same (s ∷ ss) [] = ⊥
Same (s ∷ ss) (t ∷ ts) = SameSlot s t × Same ss ts

-- No used slot has the fd.
abbrev pub FreshFor : ℤ → Slot → Type 0
FreshFor fd s = (s.used && int_eq s.fd fd) ≡ false

Same-refl : (ss : List Slot) → Same ss ss
unfolding Same
Same-refl [] = tt
Same-refl (s ∷ ss) = (inl refl, Same-refl ss)

remove_fd-put :
    (p : Port) (ss : List Slot) → All (FreshFor p.fd) ss → Same ss (remove_fd p.fd (put p ss))
unfolding Same remove_fd put
remove_fd-put p [] h = tt
remove_fd-put p (s ∷ ss) h = elim (Bool-cases s.used) [
  | inl b ↦
      subst (λ t. Same (s ∷ ss) (remove_fd p.fd (if t then s ∷ put p ss else entry p ∷ ss))) (sym b)
        (subst
          (λ t. Same (s ∷ ss) (if t then no_slot ∷ put p ss else s ∷ remove_fd p.fd (put p ss)))
          (sym h.0) (inl refl, remove_fd-put p ss h.1))
  | inr b ↦
      subst (λ t. Same (s ∷ ss) (remove_fd p.fd (if t then s ∷ put p ss else entry p ∷ ss))) (sym b)
        (subst (λ t. Same (s ∷ ss) (if t then no_slot ∷ ss else entry p ∷ remove_fd p.fd ss))
          (sym (int_eq_refl p.fd)) (inr (b, refl), Same-refl ss))
]

module _ (handlers : Text → Option Handler) (routes : List Route) where
  -- The messages of these reads of a port with this name, in order.
  unfoldable pub packets : Text → List Read → List Event
  packets name [] = []
  packets name (r ∷ rs) =
      let bytes = r.first ∷ r.others in
      route_packet handlers routes name (after_read r.stack bytes) (length bytes) ++ packets name rs

  turn-accept :
      (k : PortType) (server : Port) (fd : ℤ) (stack bytes : List ℕ) (table : List Slot)
      → is_server k ≡ true
      → turn handlers routes k server fd stack bytes table
        ≡ on_accept (client_kind k) server fd table
  unfolding turn
  turn-accept PortType.tcp_server server fd stack bytes table e = refl
  turn-accept PortType.ipc_server server fd stack bytes table e = refl
  turn-accept PortType.tty server fd stack bytes table e = absurd (cc e)
  turn-accept PortType.usb server fd stack bytes table e = absurd (cc e)
  turn-accept PortType.udp server fd stack bytes table e = absurd (cc e)
  turn-accept PortType.tcp_client server fd stack bytes table e = absurd (cc e)
  turn-accept PortType.ipc_client server fd stack bytes table e = absurd (cc e)

  turn-read :
      (k : PortType) (c : Port) (fd : ℤ) (stack bytes : List ℕ) (table : List Slot)
      → turn handlers routes (client_kind k) c fd stack bytes table
        ≡ on_read handlers routes c stack bytes table
  unfolding turn
  turn-read PortType.tcp_server c fd stack bytes table = refl
  turn-read PortType.ipc_server c fd stack bytes table = refl
  turn-read PortType.tty c fd stack bytes table = refl
  turn-read PortType.usb c fd stack bytes table = refl
  turn-read PortType.udp c fd stack bytes table = refl
  turn-read PortType.tcp_client c fd stack bytes table = refl
  turn-read PortType.ipc_client c fd stack bytes table = refl

  -- The loop after one event, whose turn is known.
  after_turn : Turn → List Incoming → List Slot × List Event
  after_turn t evs =
      let rest = reactor_thread handlers routes evs t.table in (rest.0, t.pushed ++ rest.1)

  reads_then_end-table :
      (server : Port) (fd : ℤ) (reads : List Read) (table : List Slot)
      → reactor_thread handlers routes (reads_then_end (client_of server fd) reads) table
        ≡ (remove_fd fd table, packets (client_of server fd).name reads)
  unfolding after_turn reactor_thread packets on_read
  reads_then_end-table server fd [] table =
      ap (λ t. after_turn t []) (turn-read server.kind (client_of server fd) minus_one [] [] table)
  reads_then_end-table server fd (r ∷ rs) table =
      let c = client_of server fd in
      let bytes = r.first ∷ r.others in
      let packet = route_packet handlers routes c.name (after_read r.stack bytes) (length bytes) in
      ap (λ t. after_turn t (reads_then_end c rs))
        (turn-read server.kind c minus_one r.stack bytes table)
      ∙ ap (λ x. (x.0, packet ++ x.1)) (reads_then_end-table server fd rs table)

  -- A connection on a TCP or IPC server, whose fd is that of no used slot, is accepted, sends what
  -- it likes and ends: afterwards each slot of the table is as it was before or, if it was free,
  -- free again, also where the table had no room for the connection. The messages are those of the
  -- packets of its reads, in order, under the server's name.
  pub session-Same :
      (server : Port) (fd : ℤ) (reads : List Read) (table : List Slot)
      → is_server server.kind ≡ true
      → is_negative fd ≡ false
      → All (FreshFor fd) table
      → (let r = reactor_thread handlers routes (session server fd reads) table in
          Same table r.0 × (r.1 ≡ packets (client_of server fd).name reads))
  unfolding after_turn reactor_thread
  session-Same server fd reads table es ef fresh =
      let c = client_of server fd in
      let run =
        ap (λ t. after_turn t (reads_then_end c reads))
          (turn-accept server.kind server fd [] [] table es
            ∙ on_accept-put (client_kind server.kind) server fd table ef)
        ∙ reads_then_end-table server fd reads (put c table) in
      (
        subst (λ x. Same table x) (sym (ap (λ x. x.0) run)) (remove_fd-put c table fresh),
        ap (λ x. x.1) run,
      )
