-- ===== src/Daemon/Ending.antt =====
-- From SIGTERM on: how each thread can still get to its end.
use embedded_device_forwarde.Prelude.{
  true, ℕ, zero, suc, ◌<◌, ◌≡◌, refl, List, [], ◌∷◌, false, Option, Option-cases, none, ◌⊎◌, inl,
  inr, All, arith, length, length-drop, drop,
}
use embedded_device_forwarde.Prelude.Int.{ℤ, minus_one}
use embedded_device_forwarde.Prelude.Text.{Text}
use embedded_device_forwarde.Json.{Cjson}
use embedded_device_forwarde.Config.Types.{Port, Route}
use embedded_device_forwarde.EventQueue.Ring.{Event, push_wake, pop_start}
use embedded_device_forwarde.Ports.Table.{port_find}
use embedded_device_forwarde.Reactor.Route.{Handler}
use embedded_device_forwarde.Reactor.Loop.{Incoming, IsRead}
use embedded_device_forwarde.Protocol.Header.{ProtoErr, incomplete}
use embedded_device_forwarde.Protocol.Decode.{fail, decode}
use embedded_device_forwarde.Ipc.Drain.{answer, framed, failing, frame_size, incomplete-lt}
use embedded_device_forwarde.Daemon.System.{
  System, ReactorAt, DispatcherAt, testing, popping, holding, sending, IpcAt, accepting, receiving,
  draining, leaving,
}
use embedded_device_forwarde.Daemon.Steps.{
  event, push, wake, ReactorStep, DispatcherStep, pop, unknown, found, send, IpcStep, finish,
  framed, starved, corrupt, close, Step, reactor, dispatcher, ipc, Reach, here, next,
}

-- The run flag is cleared and the reactor has left.
abbrev pub NoReactor : System → Type 0
NoReactor s = (s.running ≡ false) × (s.reactor ≡ ReactorAt.left) × (s.threads.waiting ≡ none)

-- The reactor still has these events and messages.
abbrev Serving : List Incoming → List Event → System → Type 0
Serving evs msgs s = (s.running ≡ false) × (s.reactor ≡ ReactorAt.serving evs msgs)

-- It waits for no room in the queue.
abbrev Free : List Incoming → List Event → System → Type 0
Free evs msgs s = Serving evs msgs s × (s.threads.waiting ≡ none)

-- And `ipc_thread` has left, too.
abbrev pub NoIpc : System → Type 0
NoIpc s = NoReactor s × (s.ipc ≡ IpcAt.left)

-- And the dispatcher has, or waits at an empty queue.
abbrev pub Last : System → Type 0
Last s =
    NoIpc s
    × ((s.dispatcher ≡ DispatcherAt.left)
        ⊎ ((s.dispatcher ≡ popping) × (pop_start s.threads.queue ≡ none)))

module _ (cjson : Cjson) (handlers : Text → Option Handler) (routes : List Route) where
  -- A run from this state to one with a property.
  pub record Run (s : System) (P : System → Type 0) : Type 0 where
    pub end : System
    pub run : Reach cjson handlers routes s end
    pub holds : P end

  pub Reach-then :
      {s t u : System}
      → Reach cjson handlers routes s t
      → Reach cjson handlers routes t u
      → Reach cjson handlers routes s u
  Reach-then r here = r
  Reach-then r (next q m) = next (Reach-then r q) m

  pub stay : {P : System → Type 0} (s : System) → P s → Run s P
  stay s h = record { end = s; run = here; holds = h }

  pub step :
      {P : System → Type 0} {s : System} (t : System)
      → Step cjson handlers routes s t
      → Run t P
      → Run s P
  step t m r = record { end = r.end; run = Reach-then (next here m) r.run; holds = r.holds }

  pub chain :
      {P Q : System → Type 0} {s : System} → Run s P → ((t : System) → P t → Run t Q) → Run s Q
  chain r f =
      let q = f r.end r.holds in
      record { end = q.end; run = Reach-then r.run q.run; holds = q.holds }

  -- The timed wait of `queue_push` ends at the latest at its deadline.
  unblock :
      (evs : List Incoming) (msgs : List Event) (s : System)
      → Serving evs msgs s
      → Run s (Free evs msgs)
  unfolding push_wake
  unblock evs msgs s h = elim (Option-cases s.threads.waiting) [
    | inl free ↦ stay s (h, free)
    | inr (msg, at) ↦ step _ (reactor (wake true msg at refl)) (stay _ (h, refl))
  ]

  push_rest :
      (msgs : List Event) (evs : List Incoming) (s : System)
      → Serving evs msgs s
      → Run s (Free evs [])
  push_rest [] evs s h = unblock evs [] s h
  push_rest (msg ∷ msgs) evs s h = chain (unblock evs (msg ∷ msgs) s h) (λ t f.
      step _ (reactor (push msg msgs evs f.0.1 f.1 refl)) (push_rest msgs evs _ (f.0.0, refl)))

  -- The reactor serves what `epoll_wait` has given it, and leaves.
  pub serve_rest :
      (evs : List Incoming) (msgs : List Event) (s : System)
      → All IsRead evs
      → Serving evs msgs s
      → Run s NoReactor
  serve_rest [] msgs s reads h =
      chain (push_rest msgs [] s h) (λ t f.
        step _ (reactor (ReactorStep.quit f.0.1 f.1 f.0.0 refl)) (stay _ (f.0.0, refl, f.1)))
  serve_rest (ev ∷ evs) msgs s reads h = chain (push_rest msgs (ev ∷ evs) s h) (λ t f.
      step _ (reactor (event ev evs f.0.1 f.1 reads.0 refl))
        (serve_rest evs _ _ reads.1 (f.0.0, refl)))

  -- `handle_client` returns, and `ipc_thread` leaves at its test.
  hang_up_ends : (fd : ℤ) (s : System) → NoReactor s → s.ipc ≡ leaving fd → Run s NoIpc
  hang_up_ends fd s h at =
      step _ (ipc (close fd at refl)) (step _ (ipc (IpcStep.quit refl h.0 refl)) (stay _ (h, refl)))

  receiving_ends :
      (fd : ℤ) (buf : List ℕ) (s : System) → NoReactor s → s.ipc ≡ receiving fd buf → Run s NoIpc
  receiving_ends fd buf s h at = step _ (ipc (finish fd buf at refl)) (hang_up_ends fd _ h refl)

  failing_ends :
      (e : ProtoErr) (fd : ℤ) (buf : List ℕ) (s : System)
      → NoReactor s
      → s.ipc ≡ draining fd buf
      → decode buf ≡ fail e
      → Run s NoIpc
  failing_ends incomplete fd buf s h at d =
      let short = incomplete-lt buf d in
      step _ (ipc (starved fd buf at d (λ full. omega (arith, short, full)) refl))
        (receiving_ends fd buf _ h refl)
  failing_ends e fd buf s h at d =
      step _ (ipc (corrupt fd buf e at (λ h. cc h) d refl)) (hang_up_ends fd _ h refl)

  draining_ends :
      (k : ℕ) (fd : ℤ) (buf : List ℕ) (s : System)
      → length buf < k
      → NoReactor s
      → s.ipc ≡ draining fd buf
      → Run s NoIpc
  draining_ends zero fd buf s lt h at = absurd (omega arith)
  draining_ends (suc k) fd buf s lt h at = elim (answer buf) [
    | framed n hdr payload d ↦
        let size = frame_size buf d in
        step _ (ipc (IpcStep.framed fd buf n hdr payload at d refl)) (
          draining_ends k fd (drop n buf) _ (omega (arith, length-drop n buf, size.0, size.1)) h
            refl)
    | failing e d ↦ failing_ends e fd buf s h at d
  ]

  pub ipc_ends : (a : IpcAt) (s : System) → NoReactor s → s.ipc ≡ a → Run s NoIpc
  ipc_ends accepting s h at = step _ (ipc (IpcStep.quit at h.0 refl)) (stay _ (h, refl))
  ipc_ends (receiving fd buf) s h at = receiving_ends fd buf s h at
  ipc_ends (draining fd buf) s h at = draining_ends (suc (length buf)) fd buf s (omega arith) h at
  ipc_ends (leaving fd) s h at = hang_up_ends fd s h at
  ipc_ends IpcAt.left s h at = stay s (h, at)

  -- The dispatcher handles what it has taken, and leaves at its test.
  testing_ends : (s : System) → NoIpc s → s.dispatcher ≡ testing → Run s Last
  testing_ends s h at =
      step _ (dispatcher (DispatcherStep.quit at h.0.0 refl)) (stay _ (h, inl refl))

  sending_ends :
      (p : Port) (msg : Event) (s : System) → NoIpc s → s.dispatcher ≡ sending p msg → Run s Last
  sending_ends p msg s h at =
      step _ (dispatcher (send msg p (λ n. minus_one) at refl)) (testing_ends _ h refl)

  holding_ends : (msg : Event) (s : System) → NoIpc s → s.dispatcher ≡ holding msg → Run s Last
  holding_ends msg s h at = elim (Option-cases (port_find msg.dst s.table)) [
    | inl missing ↦ step _ (dispatcher (unknown msg at missing refl)) (testing_ends _ h refl)
    | inr (p, hit) ↦ step _ (dispatcher (found msg p at hit refl)) (sending_ends p msg _ h refl)
  ]

  pub dispatcher_ends : (d : DispatcherAt) (s : System) → NoIpc s → s.dispatcher ≡ d → Run s Last
  dispatcher_ends testing s h at = testing_ends s h at
  dispatcher_ends popping s h at = elim (Option-cases (pop_start s.threads.queue)) [
    | inl empty ↦ stay s (h, inr (at, empty))
    | inr ((msg, q), popped) ↦
        step _ (dispatcher (pop msg q at popped refl)) (holding_ends msg _ h refl)
  ]
  dispatcher_ends (holding msg) s h at = holding_ends msg s h at
  dispatcher_ends (sending p msg) s h at = sending_ends p msg s h at
  dispatcher_ends DispatcherAt.left s h at = stay s (h, inl at)
