-- ===== src/Daemon/Shutdown.antt =====
-- The end of the daemon: `queue_pop` does not look at the run flag.
use embedded_device_forwarde.Prelude.{
  arith, ℕ, ◌≡◌, ◌≢◌, refl, ap, sym, subst, List, Bool, true, false, Option, none,
}
use embedded_device_forwarde.Prelude.Text.{Text}
use embedded_device_forwarde.Json.{Cjson}
use embedded_device_forwarde.Config.Types.{Route}
use embedded_device_forwarde.EventQueue.Ring.{pop_start}
use embedded_device_forwarde.Ports.Table.{Slot}
use embedded_device_forwarde.Dispatcher.Dispatch.{World}
use embedded_device_forwarde.Reactor.Route.{Handler}
use embedded_device_forwarde.Main.Log.{run_state_handle_signal, sigterm}
use embedded_device_forwarde.Daemon.System.{
  System, launch, ReactorAt, DispatcherAt, popping, MainAt, exited,
}
use embedded_device_forwarde.EventQueue.Threads.{Threads}
use embedded_device_forwarde.Daemon.Parts.{IpcStep-part}
use embedded_device_forwarde.Daemon.Steps.{
  poll, event, push, wake, ReactorStep, DispatcherStep, enter, pop, unknown, found, send, MainStep,
  watch, stop, join, Step, reactor, dispatcher, ipc, main, signal, Reach, here, next,
}

-- The run flag is cleared and the reactor has left, but the dispatcher is in `queue_pop` at an empty
-- queue, and `main` has not returned.
pub record Hangs (s : System) : Type 0 where
  pub stopped : s.running ≡ false
  pub gone : s.reactor ≡ ReactorAt.left
  pub idle : s.threads.waiting ≡ none
  pub blocked : s.dispatcher ≡ popping
  pub drained : pop_start s.threads.queue ≡ none
  pub remains : s.main ≢ exited

-- What `Hangs` is about.
abbrev view : System → Bool × ReactorAt × Threads × DispatcherAt × MainAt
view s = (s.running, s.reactor, s.threads, s.dispatcher, s.main)

-- `main` goes on, but does not return.
main-Hangs :
    (s t : System) (m : MainAt)
    → view t ≡ (s.running, s.reactor, s.threads, s.dispatcher, m)
    → m ≢ exited
    → Hangs s
    → Hangs t
main-Hangs s t m e live v = record {
  stopped = subst (λ x. x.0 ≡ false) (sym e) v.stopped;
  gone = subst (λ x. x.1 ≡ ReactorAt.left) (sym e) v.gone;
  idle = subst (λ x. x.2.waiting ≡ none) (sym e) v.idle;
  blocked = subst (λ x. x.3 ≡ popping) (sym e) v.blocked;
  drained = subst (λ x. pop_start x.2.queue ≡ none) (sym e) v.drained;
  remains = subst (λ x. x.4 ≢ exited) (sym e) live;
}

same-Hangs : (s t : System) → view t ≡ view s → Hangs s → Hangs t
same-Hangs s t e v = main-Hangs s t s.main e v.remains v

ReactorStep-Hangs :
    (handlers : Text → Option Handler) (routes : List Route) (s t : System)
    → ReactorStep handlers routes s t
    → ¬ Hangs s
ReactorStep-Hangs handlers routes s t (poll evs at idle run few reads e) v = cc (at, v.gone)
ReactorStep-Hangs handlers routes s t (ReactorStep.quit at idle stopped e) v = cc (at, v.gone)
ReactorStep-Hangs handlers routes s t (event ev evs at idle read e) v = cc (at, v.gone)
ReactorStep-Hangs handlers routes s t (push msg msgs evs at idle e) v = cc (at, v.gone)
ReactorStep-Hangs handlers routes s t (wake timed_out msg at e) v = cc (at, v.idle)

DispatcherStep-Hangs : (s t : System) → DispatcherStep s t → ¬ Hangs s
DispatcherStep-Hangs s t (enter at run e) v = cc (at, v.blocked)
DispatcherStep-Hangs s t (DispatcherStep.quit at stopped e) v = cc (at, v.blocked)
DispatcherStep-Hangs s t (pop msg q at popped e) v = cc (popped, v.drained)
DispatcherStep-Hangs s t (unknown msg at missing e) v = cc (at, v.blocked)
DispatcherStep-Hangs s t (found msg p at hit e) v = cc (at, v.blocked)
DispatcherStep-Hangs s t (send msg p result at e) v = cc (at, v.blocked)

MainStep-Hangs : (s t : System) → MainStep s t → Hangs s → Hangs t
MainStep-Hangs s t (MainStep.enter at run e) v = absurd (cc (run, v.stopped))
MainStep-Hangs s t (watch tv_sec tv_nsec at e) v =
    main-Hangs s t MainAt.watching (ap view e) (λ h. cc h) v
MainStep-Hangs s t (stop at stopped e) v = main-Hangs s t MainAt.joining (ap view e) (λ h. cc h) v
MainStep-Hangs s t (join at r i d e) v = absurd (cc (d, v.blocked))

-- No signal sets the run flag again.
pub signal_keeps :
    (sig : ℕ) (running : Bool) → running ≡ false → run_state_handle_signal sig running ≡ false
signal_keeps sig running e = ground (arith, e)

module _ (cjson : Cjson) (handlers : Text → Option Handler) (routes : List Route) where
  Step-Hangs : (s t : System) → Step cjson handlers routes s t → Hangs s → Hangs t
  Step-Hangs s t (reactor m) v = absurd (ReactorStep-Hangs handlers routes s t m v)
  Step-Hangs s t (dispatcher m) v = absurd (DispatcherStep-Hangs s t m v)
  Step-Hangs s t (ipc m) v = same-Hangs s t (ap view (IpcStep-part cjson s t m)) v
  Step-Hangs s t (main m) v = MainStep-Hangs s t m v
  Step-Hangs s t (signal sig e) v = subst Hangs (sym e) (record {
    stopped = signal_keeps sig s.running v.stopped;
    gone = v.gone;
    idle = v.idle;
    blocked = v.blocked;
    drained = v.drained;
    remains = v.remains;
  })

  Reach-Hangs : (s : System) {t : System} → Hangs s → Reach cjson handlers routes s t → Hangs t
  Reach-Hangs s v here = v
  Reach-Hangs s v (next {t} {u} r m) = Step-Hangs t u m (Reach-Hangs s v r)

  -- After the dispatcher has entered `queue_pop`, SIGTERM comes and the reactor ends its loop.
  abbrev idle_then_sigterm : List Slot → World → System
  idle_then_sigterm table w = record (launch table w) {
    running = run_state_handle_signal sigterm true;
    dispatcher = popping;
    reactor = ReactorAt.left;
  }

  Reach-idle_then_sigterm :
      (table : List Slot) (w : World)
      → Reach cjson handlers routes (launch table w) (idle_then_sigterm table w)
  Reach-idle_then_sigterm table w =
      next (next (next here (dispatcher (enter refl refl refl))) (signal sigterm refl))
        (reactor (ReactorStep.quit refl refl refl refl))

  idle_then_sigterm-Hangs : (table : List Slot) (w : World) → Hangs (idle_then_sigterm table w)
  unfolding pop_start
  idle_then_sigterm-Hangs table w = record {
    stopped = refl;
    gone = refl;
    idle = refl;
    blocked = refl;
    drained = refl;
    remains = λ h. cc h;
  }

  -- A daemon that gets SIGTERM need not end. Whatever it was started with, it can reach a state in
  -- which the run flag is cleared, the reactor has left and the dispatcher waits in `queue_pop` at
  -- an empty queue; and from each such state on, whatever the threads do and whatever signals come,
  -- the dispatcher stays there and `main` does not return.
  pub launch-hang :
      (table : List Slot) (w : World)
      → ((s : System) × Reach cjson handlers routes (launch table w) s × Hangs s)
        × ((s t : System)
            → Hangs s
            → Reach cjson handlers routes s t
            → (t.dispatcher ≡ popping) × (t.main ≢ exited))
  launch-hang table w = (
    (idle_then_sigterm table w, Reach-idle_then_sigterm table w, idle_then_sigterm-Hangs table w),
    λ s t v r. let h = Reach-Hangs s v r in (h.blocked, h.remains),
  )
