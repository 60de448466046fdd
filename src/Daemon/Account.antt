-- ===== src/Daemon/Account.antt =====
-- The messages from the routing of a packet to the writes on the ports, counted.
use embedded_device_forwarde.Prelude.{
  ℕ, ◌+◌, ◌≡◌, refl, ◌∙◌, ap, sym, subst, List, [], ◌∷◌, ◌++◌, append_assoc, false, Option, none,
  some, take, inl, inr,
}
use embedded_device_forwarde.Prelude.Int.{ℤ}
use embedded_device_forwarde.Prelude.Text.{Text}
use embedded_device_forwarde.Config.Types.{Port, is_server}
use embedded_device_forwarde.EventQueue.Ring.{Event, Queue, Pushing, pushed, dropped, waits}
use embedded_device_forwarde.EventQueue.Threads.{Threads, settle}
use embedded_device_forwarde.Ports.Table.{Slot, port_find}
use embedded_device_forwarde.Ports.Find.{Found, port_find_lem}
use embedded_device_forwarde.Ports.Send.{Net, port_send}
use embedded_device_forwarde.Ports.Router.{port_send-writes}
use embedded_device_forwarde.Daemon.System.{System, DispatcherAt, sending}
use embedded_device_forwarde.Daemon.Thinned.{Thinned, Thinned-keep, Thinned-drop}

-- The message that waits for room.
abbrev pub pending : Option Event → List Event
pending none = []
pending (some msg) = msg ∷ []

-- The pushes that have of the messages that routing has made: in order, all that were
-- accepted, and as many more as were lost.
unfoldable pub Accounts : List Event → Threads → List Event → Type 0
Accounts routed th msgs =
    (ended : List Event) × (routed ≡ ended ++ (pending th.waiting ++ msgs))
    × Thinned ended th.accepted th.lost

-- The data of these messages, as `port_send` is given them.
abbrev pub payloads : List Event → List (List ℕ)
payloads [] = []
payloads (msg ∷ msgs) = take msg.len msg.bytes ∷ payloads msgs

abbrev pub payloads_of_writes : List (ℤ × List ℕ) → List (List ℕ)
payloads_of_writes [] = []
payloads_of_writes (w ∷ ws) = w.1 ∷ payloads_of_writes ws

-- The writes carry, in order, the data of messages that were handled, each at most once.
unfoldable pub Written : List Event → List (ℤ × List ℕ) → Type 0
Written handled writes =
    (sent : List Event) × (unsent : ℕ) × Thinned handled sent unsent
    × (payloads_of_writes writes ≡ payloads sent)

-- The port that the dispatcher sends to is not a server.
abbrev pub NoServer : DispatcherAt → Type 0
NoServer (sending p msg) = is_server p.kind ≡ false
NoServer _ = Unit

-- The end of a critical section of `queue_push` for the oldest message that is left.
pub settle-Accounts :
    (routed : List Event) (th : Threads) (msg : Event) (msgs : List Event) (r : Pushing × Queue)
    → (ended : List Event) → routed ≡ ended ++ msg ∷ msgs
    → Thinned ended th.accepted th.lost
    → Accounts routed (settle msg r th) msgs
unfolding Accounts
settle-Accounts routed th msg msgs (pushed, q) ended e h = (
  ended ++ msg ∷ [],
  e ∙ sym (append_assoc ended (msg ∷ []) msgs),
  Thinned-keep ended th.accepted th.lost msg h,
)
settle-Accounts routed th msg msgs (dropped, q) ended e h = (
  ended ++ msg ∷ [],
  e ∙ sym (append_assoc ended (msg ∷ []) msgs),
  Thinned-drop ended th.accepted th.lost msg h,
)
settle-Accounts routed th msg msgs (waits, q) ended e h = (ended, e, h)

pub settle-delivered :
    (msg : Event) (r : Pushing × Queue) (th : Threads) → (settle msg r th).delivered ≡ th.delivered
settle-delivered msg (pushed, q) th = refl
settle-delivered msg (dropped, q) th = refl
settle-delivered msg (waits, q) th = refl

pub Accounts-append :
    (routed : List Event) (th : Threads) (more : List Event)
    → Accounts routed th []
    → Accounts (routed ++ more) th more
unfolding Accounts
Accounts-append routed th more (ended, e, h) = (
  ended,
  ap (λ l. l ++ more) e
      ∙ append_assoc ended (pending th.waiting ++ []) more
      ∙ ap (λ l. ended ++ l) (append_assoc (pending th.waiting) [] more),
  h,
)

payloads-append :
    (xs : List Event) (msg : Event)
    → payloads (xs ++ msg ∷ []) ≡ payloads xs ++ take msg.len msg.bytes ∷ []
payloads-append [] msg = refl
payloads-append (x ∷ xs) msg = ap (λ l. take x.len x.bytes ∷ l) (payloads-append xs msg)

payloads_of_writes-append :
    (ws : List (ℤ × List ℕ)) (fd : ℤ) (bytes : List ℕ)
    → payloads_of_writes (ws ++ (fd, bytes) ∷ []) ≡ payloads_of_writes ws ++ bytes ∷ []
payloads_of_writes-append [] fd bytes = refl
payloads_of_writes-append (w ∷ ws) fd bytes =
    ap (λ l. w.1 ∷ l) (payloads_of_writes-append ws fd bytes)

-- A message that is handled with no write, and one that is written.
pub Written-unsent :
    (handled : List Event) (writes : List (ℤ × List ℕ)) (msg : Event)
    → Written handled writes
    → Written (handled ++ msg ∷ []) writes
unfolding Written
Written-unsent handled writes msg (sent, n, h, e) =
    (sent, n + 1, Thinned-drop handled sent n msg h, e)

Written-sent :
    (handled : List Event) (writes : List (ℤ × List ℕ)) (msg : Event) (fd : ℤ)
    → Written handled writes
    → Written (handled ++ msg ∷ []) (writes ++ (fd, take msg.len msg.bytes) ∷ [])
unfolding Written
Written-sent handled writes msg fd (sent, n, h, e) = (
  sent ++ msg ∷ [],
  n,
  Thinned-keep handled sent n msg h,
  payloads_of_writes-append writes fd (take msg.len msg.bytes)
      ∙ ap (λ l. l ++ take msg.len msg.bytes ∷ []) e
      ∙ sym (payloads-append sent msg),
)

pub Found-no-server :
    (name : Text) (ss : List Slot) (p : Port)
    → port_find name ss ≡ some p
    → is_server p.kind ≡ false
unfolding Found
Found-no-server name ss p e = (subst (Found name ss) e (port_find_lem name ss)).2

pub send-Written :
    (s : System) (msg : Event) (p : Port) (result : ℕ → ℤ)
    → Written s.handled s.writes
    → is_server p.kind ≡ false
    → Written
        (s.handled ++ msg ∷ [])
        (port_send p
          (take msg.len msg.bytes)
          s.table
          (record { writes = s.writes; result = result })).1.writes
send-Written s msg p result h client =
    let data_sent = take msg.len msg.bytes in
    let net : Net = record { writes = s.writes; result = result } in
    elim (port_send-writes p data_sent s.table net client) [
      | inl e ↦
          subst (Written (s.handled ++ msg ∷ [])) (sym (ap (λ (n : Net). n.writes) e))
            (Written-unsent s.handled s.writes msg h)
      | inr e ↦
          subst (Written (s.handled ++ msg ∷ [])) (sym e)
            (Written-sent s.handled s.writes msg p.fd h)
    ]
