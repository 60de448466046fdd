-- ===== src/Daemon/Orderly.antt =====
-- What `main` waits for, and what holds until then.
use embedded_device_forwarde.Prelude.{
  ℕ, ◌≡◌, ◌≢◌, refl, ◌∙◌, ap, sym, subst, List, [], Bool, false, Option, none,
}
use embedded_device_forwarde.Prelude.Text.{Text}
use embedded_device_forwarde.Json.{Cjson}
use embedded_device_forwarde.Config.Types.{Route}
use embedded_device_forwarde.EventQueue.Ring.{Event}
use embedded_device_forwarde.Ports.Table.{Slot}
use embedded_device_forwarde.Dispatcher.Dispatch.{World}
use embedded_device_forwarde.Reactor.Route.{Handler}
use embedded_device_forwarde.Main.Log.{run_state_handle_signal}
use embedded_device_forwarde.Daemon.System.{
  System, launch, ReactorAt, DispatcherAt, IpcAt, MainAt, joining, exited,
}
use embedded_device_forwarde.Daemon.Steps.{
  poll, event, push, wake, ReactorStep, DispatcherStep, enter, pop, unknown, found, send, IpcStep,
  accept, recv, finish, framed, starved, full, corrupt, close, MainStep, watch, stop, join, Step,
  reactor, dispatcher, ipc, main, signal, Reach, here, next,
}
use embedded_device_forwarde.Daemon.Parts.{DispatcherStep-part, IpcStep-part}
use embedded_device_forwarde.Daemon.Shutdown.{signal_keeps}

-- The run flag is cleared, and the other three threads have left.
pub record Over (s : System) : Type 0 where
  pub stopped : s.running ≡ false
  pub reactor_left : s.reactor ≡ ReactorAt.left
  pub dispatcher_left : s.dispatcher ≡ DispatcherAt.left
  pub ipc_left : s.ipc ≡ IpcAt.left
  pub idle : s.threads.waiting ≡ none

-- What holds before the end, too.
pub record Orderly (s : System) : Type 0 where
  pub unhurried : s.reactor ≡ ReactorAt.left → s.threads.waiting ≡ none
  pub asked : s.main ≡ joining → s.running ≡ false
  pub over : s.main ≡ exited → Over s

-- What `Orderly` is about, until `main` ends.
abbrev pub view : System → MainAt × Bool × ReactorAt × Option Event
view s = (s.main, s.running, s.reactor, s.threads.waiting)

-- Another thread's step, while `main` has not ended.
kept-Orderly :
    (s t : System) (r : ReactorAt) (w : Option Event)
    → view t ≡ (s.main, s.running, r, w)
    → (r ≡ ReactorAt.left → w ≡ none)
    → s.main ≢ exited
    → Orderly s
    → Orderly t
kept-Orderly s t r w e f live v = record {
  unhurried = subst (λ x. x.2 ≡ ReactorAt.left → x.3 ≡ none) (sym e) f;
  asked = subst (λ x. x.0 ≡ joining → x.1 ≡ false) (sym e) v.asked;
  over = λ h. absurd (live (sym (ap (λ x. x.0) e) ∙ h));
}

-- A thread that is still to make a step has not left.
module _ (handlers : Text → Option Handler) (routes : List Route) where
  pub ReactorStep-live :
      (s t : System) → ReactorStep handlers routes s t → Orderly s → s.main ≢ exited
  ReactorStep-live s t (poll evs at idle run few reads e) v h = cc (at, (v.over h).reactor_left)
  ReactorStep-live s t (ReactorStep.quit at idle stopped e) v h = cc (at, (v.over h).reactor_left)
  ReactorStep-live s t (event ev evs at idle read e) v h = cc (at, (v.over h).reactor_left)
  ReactorStep-live s t (push msg msgs evs at idle e) v h = cc (at, (v.over h).reactor_left)
  ReactorStep-live s t (wake timed_out msg at e) v h = cc (at, (v.over h).idle)

  ReactorStep-Orderly : (s t : System) → ReactorStep handlers routes s t → Orderly s → Orderly t
  ReactorStep-Orderly s t m v = choose m (ReactorStep-live s t m v)
    where
      choose : ReactorStep handlers routes s t → s.main ≢ exited → Orderly t
      choose (poll evs at idle run few reads e) live =
          kept-Orderly s t (ReactorAt.serving evs []) s.threads.waiting (ap view e) (λ h. idle) live
            v
      choose (ReactorStep.quit at idle stopped e) live =
          kept-Orderly s t ReactorAt.left s.threads.waiting (ap view e) (λ h. idle) live v
      choose (event ev evs at idle read e) live =
          kept-Orderly s t _ s.threads.waiting (ap view e) (λ h. idle) live v
      choose (push msg msgs evs at idle e) live =
          kept-Orderly s t (ReactorAt.serving evs msgs) _ (ap view e) (λ h. cc h) live v
      choose (wake timed_out msg at e) live =
          kept-Orderly s t s.reactor _ (ap view e) (λ h. cc (at, v.unhurried h)) live v

pub DispatcherStep-live : (s t : System) → DispatcherStep s t → Orderly s → s.main ≢ exited
DispatcherStep-live s t (enter at run e) v h = cc (at, (v.over h).dispatcher_left)
DispatcherStep-live s t (DispatcherStep.quit at stopped e) v h = cc (at, (v.over h).dispatcher_left)
DispatcherStep-live s t (pop msg q at popped e) v h = cc (at, (v.over h).dispatcher_left)
DispatcherStep-live s t (unknown msg at missing e) v h = cc (at, (v.over h).dispatcher_left)
DispatcherStep-live s t (found msg p at hit e) v h = cc (at, (v.over h).dispatcher_left)
DispatcherStep-live s t (send msg p result at e) v h = cc (at, (v.over h).dispatcher_left)

module _ (cjson : Cjson) where
  pub IpcStep-live : (s t : System) → IpcStep cjson s t → Orderly s → s.main ≢ exited
  IpcStep-live s t (accept fd at run e) v h = cc (at, (v.over h).ipc_left)
  IpcStep-live s t (IpcStep.quit at stopped e) v h = cc (at, (v.over h).ipc_left)
  IpcStep-live s t (recv fd buf b bytes at run room e) v h = cc (at, (v.over h).ipc_left)
  IpcStep-live s t (finish fd buf at e) v h = cc (at, (v.over h).ipc_left)
  IpcStep-live s t (framed fd buf n hdr payload at d e) v h = cc (at, (v.over h).ipc_left)
  IpcStep-live s t (starved fd buf at d short e) v h = cc (at, (v.over h).ipc_left)
  IpcStep-live s t (full fd buf at d filled e) v h = cc (at, (v.over h).ipc_left)
  IpcStep-live s t (corrupt fd buf err at fatal d e) v h = cc (at, (v.over h).ipc_left)
  IpcStep-live s t (close fd at e) v h = cc (at, (v.over h).ipc_left)

pub MainStep-live : (s t : System) → MainStep s t → s.main ≢ exited
MainStep-live s t (MainStep.enter at run e) h = cc (at, h)
MainStep-live s t (watch tv_sec tv_nsec at e) h = cc (at, h)
MainStep-live s t (stop at stopped e) h = cc (at, h)
MainStep-live s t (join at r i d e) h = cc (at, h)

MainStep-Orderly : (s t : System) → MainStep s t → Orderly s → Orderly t
MainStep-Orderly s t (MainStep.enter at run e) v =
    subst Orderly (sym e) (record { unhurried = v.unhurried; asked = λ h. cc h; over = λ h. cc h })
MainStep-Orderly s t (watch tv_sec tv_nsec at e) v =
    subst Orderly (sym e) (record { unhurried = v.unhurried; asked = λ h. cc h; over = λ h. cc h })
MainStep-Orderly s t (stop at stopped e) v =
    subst Orderly (sym e)
      (record { unhurried = v.unhurried; asked = λ h. stopped; over = λ h. cc h })
MainStep-Orderly s t (join at r i d e) v =
    let stopped : s.running ≡ false = v.asked at in
    subst Orderly (sym e) (record {
      unhurried = v.unhurried;
      asked = λ h. stopped;
      over = λ h. record {
        stopped = stopped;
        reactor_left = r;
        dispatcher_left = d;
        ipc_left = i;
        idle = v.unhurried r;
      };
    })

-- A signal.
signalled-Orderly :
    (sig : ℕ) (s : System)
    → Orderly s
    → Orderly (record s { running = run_state_handle_signal sig s.running })
signalled-Orderly sig s v = record {
  unhurried = v.unhurried;
  asked = λ h. signal_keeps sig s.running (v.asked h);
  over = λ h. record {
    stopped = signal_keeps sig s.running (v.over h).stopped;
    reactor_left = (v.over h).reactor_left;
    dispatcher_left = (v.over h).dispatcher_left;
    ipc_left = (v.over h).ipc_left;
    idle = (v.over h).idle;
  };
}

module _ (cjson : Cjson) (handlers : Text → Option Handler) (routes : List Route) where
  Step-Orderly : (s t : System) → Step cjson handlers routes s t → Orderly s → Orderly t
  Step-Orderly s t (reactor m) v = ReactorStep-Orderly handlers routes s t m v
  Step-Orderly s t (dispatcher m) v =
      kept-Orderly s t s.reactor s.threads.waiting (ap view (DispatcherStep-part s t m)) v.unhurried
        (DispatcherStep-live s t m v) v
  Step-Orderly s t (ipc m) v =
      kept-Orderly s t s.reactor s.threads.waiting (ap view (IpcStep-part cjson s t m)) v.unhurried
        (IpcStep-live cjson s t m v) v
  Step-Orderly s t (main m) v = MainStep-Orderly s t m v
  Step-Orderly s t (signal sig e) v = subst Orderly (sym e) (signalled-Orderly sig s v)

  pub Reach-Orderly :
      (table : List Slot) (w : World) {s : System}
      → Reach cjson handlers routes (launch table w) s
      → Orderly s
  Reach-Orderly table w here = record { unhurried = λ h. refl; asked = λ h. cc h; over = λ h. cc h }
  Reach-Orderly table w (next {t} {u} r m) = Step-Orderly t u m (Reach-Orderly table w r)
