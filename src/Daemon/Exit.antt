-- ===== src/Daemon/Exit.antt =====
-- The end of `main`: what it leaves, once each `pthread_join` has returned.
use embedded_device_forwarde.Prelude.{
  ◌≡◌, refl, ◌∙◌, ap, sym, subst, List, [], ◌++◌, Option, All, append-nil,
}
use embedded_device_forwarde.Prelude.Text.{Text}
use embedded_device_forwarde.Json.{Cjson}
use embedded_device_forwarde.Config.Types.{Route}
use embedded_device_forwarde.EventQueue.Fifo.{contents}
use embedded_device_forwarde.Ports.Table.{Slot}
use embedded_device_forwarde.Dispatcher.Dispatch.{World}
use embedded_device_forwarde.Reactor.Route.{Handler}
use embedded_device_forwarde.Registry.Owner.{registered, registered-none, OnlyOf}
use embedded_device_forwarde.Daemon.System.{System, launch, exited, packet, in_hand, client_of}
use embedded_device_forwarde.Daemon.Steps.{
  Step, reactor, dispatcher, ipc, main, signal, Reach, here, next,
}
use embedded_device_forwarde.Daemon.Thinned.{Thinned}
use embedded_device_forwarde.Daemon.Account.{Accounts, pending}
use embedded_device_forwarde.Daemon.Delivery.{Reach-Conserved}
use embedded_device_forwarde.Daemon.Clients.{Reach-OneClient}
use embedded_device_forwarde.Daemon.Shutdown.{signal_keeps}
use embedded_device_forwarde.Daemon.Orderly.{
  Over, Orderly, ReactorStep-live, DispatcherStep-live, IpcStep-live, MainStep-live, Reach-Orderly,
}

module _ (cjson : Cjson) (handlers : Text → Option Handler) (routes : List Route) where
  -- After the end there is no step, and a signal changes nothing.
  Step-still : (s t : System) → Step cjson handlers routes s t → Orderly s → s.main ≡ exited → t ≡ s
  Step-still s t (reactor m) v h = absurd (ReactorStep-live handlers routes s t m v h)
  Step-still s t (dispatcher m) v h = absurd (DispatcherStep-live s t m v h)
  Step-still s t (ipc m) v h = absurd (IpcStep-live cjson s t m v h)
  Step-still s t (main m) v h = absurd (MainStep-live s t m h)
  Step-still s t (signal sig e) v h =
      let stopped = (v.over h).stopped in
      e ∙ ap (λ b. record s { running = b }) (signal_keeps sig s.running stopped ∙ sym stopped)

  Reach-still :
      (s : System) {t : System}
      → Orderly s
      → s.main ≡ exited
      → Reach cjson handlers routes s t
      → t ≡ s
  Reach-still s v h here = refl
  Reach-still s v h (next {t} {u} r m) =
      let same = Reach-still s v h r in
      Step-still t u m (subst Orderly (sym same) v) (subst (λ x. x.main ≡ exited) (sym same) h)
      ∙ same

  -- The messages of routing, once the reactor has left and nothing is in the dispatcher's hands.
  accounted :
      (s : System)
      → Over s
      → Accounts s.routed s.threads (packet s.reactor)
      → s.threads.accepted ≡ s.handled ++ (in_hand s.dispatcher ++ contents s.threads.queue)
      → Thinned s.routed (s.handled ++ contents s.threads.queue) s.threads.lost
  unfolding Accounts
  accounted s o (ended, e, h) a =
      let none_left : pending s.threads.waiting ++ packet s.reactor ≡ [] =
        rw (o.idle, o.reactor_left) refl in
      let all_ended : s.routed ≡ ended = e ∙ ap (λ l. ended ++ l) none_left ∙ append-nil ended in
      let all_taken : s.threads.accepted ≡ s.handled ++ contents s.threads.queue =
        subst (λ d. s.threads.accepted ≡ s.handled ++ (in_hand d ++ contents s.threads.queue))
          o.dispatcher_left a in
      subst (λ l. Thinned l (s.handled ++ contents s.threads.queue) s.threads.lost) (sym all_ended)
        (subst (λ l. Thinned ended l s.threads.lost) all_taken h)

  -- When `main` has returned, the run flag is cleared and the other three threads have left, no
  -- subprogram is registered, and every message that routing has made is, in order, handled, still
  -- in the queue, or counted as lost at a full queue; and whatever comes then, signals included,
  -- changes nothing any more.
  pub exited-Settled :
      (table : List Slot) (w : World) (s t : System)
      → Reach cjson handlers routes (launch table w) s
      → s.main ≡ exited
      → Reach cjson handlers routes s t
      → Over s
        × (registered s.world.registry.table ≡ 0)
        × Thinned s.routed (s.handled ++ contents s.threads.queue) s.threads.lost
        × (t ≡ s)
  exited-Settled table w s t r h later =
      let v = Reach-Orderly cjson handlers routes table w r in
      let o = v.over h in
      let c = Reach-Conserved cjson handlers routes table w s r in
      let only =
        subst (λ a. All (OnlyOf (client_of a)) s.world.registry.table) o.ipc_left
          (Reach-OneClient cjson handlers routes table w s r).1 in
      (
        o,
        registered-none s.world.registry.table only,
        accounted s o c.0 c.1,
        Reach-still s v h later,
      )
