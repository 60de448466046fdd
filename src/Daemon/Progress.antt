-- ===== src/Daemon/Progress.antt =====
-- What can become of a daemon whose run flag is cleared.
use embedded_device_forwarde.Prelude.{
  ◌∷◌, ◌≡◌, refl, ap, sym, subst, List, false, Option, ◌⊎◌, inl, inr, All,
}
use embedded_device_forwarde.Prelude.Text.{Text}
use embedded_device_forwarde.Json.{Cjson}
use embedded_device_forwarde.Config.Types.{Route}
use embedded_device_forwarde.Ports.Table.{Slot}
use embedded_device_forwarde.Reactor.Route.{Handler}
use embedded_device_forwarde.Reactor.Loop.{IsRead}
use embedded_device_forwarde.Dispatcher.Dispatch.{World}
use embedded_device_forwarde.Daemon.System.{
  DispatcherAt, System, launch, ReactorAt, MainAt, watching, joining, exited,
}
use embedded_device_forwarde.Daemon.Steps.{
  poll, event, push, wake, ReactorStep, watch, stop, join, Step, reactor, dispatcher, ipc, main,
  signal, Reach, here, next,
}
use embedded_device_forwarde.Daemon.Shutdown.{Hangs}
use embedded_device_forwarde.Daemon.Orderly.{Orderly, Reach-Orderly}
use embedded_device_forwarde.Daemon.Parts.{DispatcherStep-part, IpcStep-part, MainStep-part}
use embedded_device_forwarde.Daemon.Ending.{
  NoReactor, NoIpc, Last, Run, Reach-then, stay, step, chain, serve_rest, ipc_ends, dispatcher_ends,
}

-- The events of `epoll_wait` that the reactor still has come from a `read` into its buffer.
abbrev Readable : ReactorAt → Type 0
Readable (ReactorAt.serving evs msgs) = All IsRead evs
Readable ReactorAt.left = Unit

same-Readable : (s t : System) → t.reactor ≡ s.reactor → Readable s.reactor → Readable t.reactor
same-Readable s t e = subst Readable (sym e)

ReactorStep-Readable :
    (handlers : Text → Option Handler) (routes : List Route) (s t : System)
    → ReactorStep handlers routes s t
    → Readable s.reactor
    → Readable t.reactor
ReactorStep-Readable handlers routes s t (poll evs at idle run few reads e) v =
    subst Readable (sym (ap (λ x. x.reactor) e)) reads
ReactorStep-Readable handlers routes s t (ReactorStep.quit at idle stopped e) v =
    subst Readable (sym (ap (λ x. x.reactor) e)) tt
ReactorStep-Readable handlers routes s t (event ev evs at idle read e) v =
    let reads : All IsRead (ev ∷ evs) = subst Readable at v in
    subst Readable (sym (ap (λ x. x.reactor) e)) reads.1
ReactorStep-Readable handlers routes s t (push msg msgs evs at idle e) v =
    let reads : All IsRead evs = subst Readable at v in
    subst Readable (sym (ap (λ x. x.reactor) e)) reads
ReactorStep-Readable handlers routes s t (wake timed_out msg at e) v =
    same-Readable s t (ap (λ x. x.reactor) e) v

module _ (cjson : Cjson) (handlers : Text → Option Handler) (routes : List Route) where
  Step-Readable :
      (s t : System) → Step cjson handlers routes s t → Readable s.reactor → Readable t.reactor
  Step-Readable s t (reactor m) v = ReactorStep-Readable handlers routes s t m v
  Step-Readable s t (dispatcher m) v =
      same-Readable s t (ap (λ x. x.reactor) (DispatcherStep-part s t m)) v
  Step-Readable s t (ipc m) v = same-Readable s t (ap (λ x. x.reactor) (IpcStep-part cjson s t m)) v
  Step-Readable s t (main m) v = same-Readable s t (ap (λ x. x.reactor) (MainStep-part s t m)) v
  Step-Readable s t (signal sig e) v = same-Readable s t (ap (λ x. x.reactor) e) v

  Reach-Readable :
      (table : List Slot) (w : World) {s : System}
      → Reach cjson handlers routes (launch table w) s
      → Readable s.reactor
  Reach-Readable table w here = tt
  Reach-Readable table w (next {t} {u} r m) = Step-Readable t u m (Reach-Readable table w r)

  reactor_ends :
      (r : ReactorAt) (s : System)
      → Readable r
      → Orderly s
      → s.running ≡ false
      → s.reactor ≡ r
      → Run cjson handlers routes s NoReactor
  reactor_ends (ReactorAt.serving evs msgs) s reads v stopped at =
      serve_rest cjson handlers routes evs msgs s reads (stopped, at)
  reactor_ends ReactorAt.left s reads v stopped at =
      stay cjson handlers routes s (stopped, at, v.unhurried at)

  watching_ends :
      (s : System)
      → NoIpc s
      → s.main ≡ watching
      → s.dispatcher ≡ DispatcherAt.left
      → Run cjson handlers routes s (λ t. t.main ≡ exited)
  watching_ends s h at d = step cjson handlers routes _ (main (stop at h.0.0 refl)) (
      step cjson handlers routes _ (main (join refl h.0.1 h.1 d refl))
        (stay cjson handlers routes _ refl))

  main_ends :
      (m : MainAt) (s : System)
      → NoIpc s
      → s.main ≡ m
      → s.dispatcher ≡ DispatcherAt.left
      → Run cjson handlers routes s (λ t. t.main ≡ exited)
  main_ends watching s h at d = watching_ends s h at d
  main_ends MainAt.sleeping s h at d =
      step cjson handlers routes _ (main (watch 0 0 at refl)) (watching_ends _ h refl d)
  main_ends joining s h at d =
      step cjson handlers routes _ (main (join at h.0.1 h.1 d refl))
        (stay cjson handlers routes _ refl)
  main_ends exited s h at d = stay cjson handlers routes s at

  others_end :
      (s : System)
      → Readable s.reactor
      → Orderly s
      → s.running ≡ false
      → Run cjson handlers routes s Last
  others_end s reads v stopped =
      chain cjson handlers routes (reactor_ends s.reactor s reads v stopped refl) (λ t h.
        chain cjson handlers routes (ipc_ends cjson handlers routes t.ipc t h refl)
          (λ u k. dispatcher_ends cjson handlers routes u.dispatcher u k refl))

  -- From each state that can be reached in which the run flag is cleared, there is a run on to a
  -- state in which `main` has returned, or to one in which the reactor has left and the dispatcher is
  -- in `queue_pop` at an empty queue. It is a run in which the calls that a thread waits in return.
  pub stopped-Ends :
      (table : List Slot) (w : World) (s : System)
      → Reach cjson handlers routes (launch table w) s
      → s.running ≡ false
      → (t : System) × Reach cjson handlers routes s t × ((t.main ≡ exited) ⊎ Hangs t)
  stopped-Ends table w s r stopped =
      let v = Reach-Orderly cjson handlers routes table w r in
      let o = others_end s (Reach-Readable table w r) v stopped in
      let at_end =
        Reach-Orderly cjson handlers routes table w (Reach-then cjson handlers routes r o.run) in
      elim o.holds.1 [
        | inl d ↦
            let m = main_ends o.end.main o.end o.holds.0 refl d in
            (m.end, Reach-then cjson handlers routes o.run m.run, inl m.holds)
        | inr (d, empty) ↦ (
          o.end,
          o.run,
          inr (record {
            stopped = o.holds.0.0.0;
            gone = o.holds.0.0.1;
            idle = o.holds.0.0.2;
            blocked = d;
            drained = empty;
            remains = λ h. cc (d, (at_end.over h).dispatcher_left);
          }),
        )
      ]
