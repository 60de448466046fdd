-- ===== src/Daemon/Delivery.antt =====
-- What becomes of the messages, from the routing of a packet to the writes on the ports.
use embedded_device_forwarde.Prelude.{
  ℕ, ◌≡◌, refl, ◌∙◌, ap, sym, subst, List, [], ◌∷◌, ◌++◌, append_assoc, append-nil, Option,
}
use embedded_device_forwarde.Prelude.Int.{ℤ}
use embedded_device_forwarde.Prelude.Text.{Text}
use embedded_device_forwarde.Json.{Cjson}
use embedded_device_forwarde.Config.Types.{Route}
use embedded_device_forwarde.EventQueue.Ring.{Event, push_start, push_wake}
use embedded_device_forwarde.EventQueue.Fifo.{contents}
use embedded_device_forwarde.EventQueue.Threads.{Threads, settle, Inv, Step-Inv, start-Inv}
use embedded_device_forwarde.EventQueue.Threads
use embedded_device_forwarde.Ports.Table.{Slot}
use embedded_device_forwarde.Dispatcher.Dispatch.{World}
use embedded_device_forwarde.Reactor.Route.{Handler}
use embedded_device_forwarde.Daemon.System.{
  DispatcherAt, ReactorAt, System, packet, in_hand, launch,
}
use embedded_device_forwarde.Daemon.Steps.{
  poll, event, push, wake, ReactorStep, DispatcherStep, enter, pop, unknown, found, send, Step,
  reactor, dispatcher, ipc, main, signal, Reach, here, next, turn_of,
}
use embedded_device_forwarde.Daemon.Thinned.{Thinned}
use embedded_device_forwarde.Daemon.Parts.{IpcStep-part, MainStep-part}
use embedded_device_forwarde.Daemon.Account.{
  pending, Accounts, Written, NoServer, settle-Accounts, settle-delivered, Accounts-append,
  Written-unsent, Found-no-server, send-Written,
}

pub record Delivers (s : System) : Type 0 where
  pub queue : Inv s.threads
  pub pushes : Accounts s.routed s.threads (packet s.reactor)
  pub taken : s.threads.delivered ≡ s.handled ++ in_hand s.dispatcher
  pub written : Written s.handled s.writes
  pub clients : NoServer s.dispatcher

launch-Delivers : (table : List Slot) (w : World) → Delivers (launch table w)
unfolding Accounts Written Thinned
launch-Delivers table w = record {
  queue = start-Inv;
  pushes = ([], refl, (refl, refl));
  taken = refl;
  written = ([], 0, (refl, refl), refl);
  clients = tt;
}

module _ (handlers : Text → Option Handler) (routes : List Route) where
  ReactorStep-Delivers : (s t : System) → ReactorStep handlers routes s t → Delivers s → Delivers t
  unfolding Accounts
  ReactorStep-Delivers s t (poll evs at idle run few reads e) v = subst Delivers (sym e) (record {
    queue = v.queue;
    pushes = subst (Accounts s.routed s.threads) (ap packet at) v.pushes;
    taken = v.taken;
    written = v.written;
    clients = v.clients;
  })
  ReactorStep-Delivers s t (ReactorStep.quit at idle stopped e) v = subst Delivers (sym e) (record {
    queue = v.queue;
    pushes = subst (Accounts s.routed s.threads) (ap packet at) v.pushes;
    taken = v.taken;
    written = v.written;
    clients = v.clients;
  })
  ReactorStep-Delivers s t (event ev evs at idle read e) v = subst Delivers (sym e) (record {
    queue = v.queue;
    pushes =
        Accounts-append s.routed s.threads (turn_of handlers routes ev s.table).pushed
          (subst (Accounts s.routed s.threads) (ap packet at) v.pushes);
    taken = v.taken;
    written = v.written;
    clients = v.clients;
  })
  ReactorStep-Delivers s t (push msg msgs evs at idle e) v =
      let r = push_start msg s.threads.queue in
      let (ended, split, h) = v.pushes in
      subst Delivers (sym e) (record {
        queue = Step-Inv s.threads (settle msg r s.threads) (Threads.push msg idle refl) v.queue;
        pushes =
            settle-Accounts s.routed s.threads msg msgs r ended
              (split
                ∙ ap (λ o. ended ++ (pending o ++ packet s.reactor)) idle
                ∙ ap (λ a. ended ++ packet a) at)
              h;
        taken = settle-delivered msg r s.threads ∙ v.taken;
        written = v.written;
        clients = v.clients;
      })
  ReactorStep-Delivers s t (wake timed_out msg at e) v =
      let r = push_wake timed_out msg s.threads.queue in
      let (ended, split, h) = v.pushes in
      subst Delivers (sym e) (record {
        queue =
            Step-Inv s.threads (settle msg r s.threads) (Threads.wake timed_out msg at refl)
              v.queue;
        pushes =
            settle-Accounts s.routed s.threads msg (packet s.reactor) r ended
              (split ∙ ap (λ o. ended ++ (pending o ++ packet s.reactor)) at) h;
        taken = settle-delivered msg r s.threads ∙ v.taken;
        written = v.written;
        clients = v.clients;
      })

DispatcherStep-Delivers : (s t : System) → DispatcherStep s t → Delivers s → Delivers t
unfolding Accounts
DispatcherStep-Delivers s t (enter at run e) v = subst Delivers (sym e) (record {
  queue = v.queue;
  pushes = v.pushes;
  taken = v.taken ∙ ap (λ a. s.handled ++ in_hand a) at;
  written = v.written;
  clients = tt;
})
DispatcherStep-Delivers s t (DispatcherStep.quit at stopped e) v = subst Delivers (sym e) (record {
  queue = v.queue;
  pushes = v.pushes;
  taken = v.taken ∙ ap (λ a. s.handled ++ in_hand a) at;
  written = v.written;
  clients = tt;
})
DispatcherStep-Delivers s t (pop msg q at popped e) v = subst Delivers (sym e) (record {
  queue =
      Step-Inv s.threads
        (record s.threads { queue = q; delivered = s.threads.delivered ++ msg ∷ [] })
        (Threads.pop msg q popped refl) v.queue;
  pushes = v.pushes;
  taken =
      ap (λ l. l ++ msg ∷ [])
        (v.taken ∙ ap (λ a. s.handled ++ in_hand a) at ∙ append-nil s.handled);
  written = v.written;
  clients = tt;
})
DispatcherStep-Delivers s t (unknown msg at missing e) v = subst Delivers (sym e) (record {
  queue = v.queue;
  pushes = v.pushes;
  taken = v.taken ∙ ap (λ a. s.handled ++ in_hand a) at ∙ sym (append-nil (s.handled ++ msg ∷ []));
  written = Written-unsent s.handled s.writes msg v.written;
  clients = tt;
})
DispatcherStep-Delivers s t (found msg p at hit e) v = subst Delivers (sym e) (record {
  queue = v.queue;
  pushes = v.pushes;
  taken = v.taken ∙ ap (λ a. s.handled ++ in_hand a) at;
  written = v.written;
  clients = Found-no-server msg.dst s.table p hit;
})
DispatcherStep-Delivers s t (send msg p result at e) v = subst Delivers (sym e) (record {
  queue = v.queue;
  pushes = v.pushes;
  taken = v.taken ∙ ap (λ a. s.handled ++ in_hand a) at ∙ sym (append-nil (s.handled ++ msg ∷ []));
  written = send-Written s msg p result v.written (subst NoServer at v.clients);
  clients = tt;
})

-- What `Delivers` is about: the steps of `ipc_thread` and `main`, and signals, leave it alone.
abbrev view :
    System → Threads × ReactorAt × DispatcherAt × List (ℤ × List ℕ) × List Event × List Event
view s = (s.threads, s.reactor, s.dispatcher, s.writes, s.routed, s.handled)

same-Delivers : (s t : System) → view t ≡ view s → Delivers s → Delivers t
same-Delivers s t e v = record {
  queue = subst (λ x. Inv x.0) (sym e) v.queue;
  pushes = subst (λ x. Accounts x.4 x.0 (packet x.1)) (sym e) v.pushes;
  taken = subst (λ x. x.0.delivered ≡ x.5 ++ in_hand x.2) (sym e) v.taken;
  written = subst (λ x. Written x.5 x.3) (sym e) v.written;
  clients = subst (λ x. NoServer x.2) (sym e) v.clients;
}

module _ (cjson : Cjson) (handlers : Text → Option Handler) (routes : List Route) where
  Step-Delivers : (s t : System) → Step cjson handlers routes s t → Delivers s → Delivers t
  Step-Delivers s t (reactor m) v = ReactorStep-Delivers handlers routes s t m v
  Step-Delivers s t (dispatcher m) v = DispatcherStep-Delivers s t m v
  Step-Delivers s t (ipc m) v = same-Delivers s t (ap view (IpcStep-part cjson s t m)) v
  Step-Delivers s t (main m) v = same-Delivers s t (ap view (MainStep-part s t m)) v
  Step-Delivers s t (signal sig e) v = same-Delivers s t (ap view e) v

  pub Reach-Delivers :
      (table : List Slot) (w : World) {s : System}
      → Reach cjson handlers routes (launch table w) s
      → Delivers s
  Reach-Delivers table w here = launch-Delivers table w
  Reach-Delivers table w (next {t} {u} r m) = Step-Delivers t u m (Reach-Delivers table w r)

  -- In every interleaving of the four threads, with any events, frames, results of system calls and
  -- signals: of the messages that routing has made, in their order, those whose push has ended are
  -- the accepted ones and as many others as were lost, and the rest is in the reactor's hands; the
  -- accepted ones are, in order, those that were handled, the one that the dispatcher holds, if it
  -- holds one, and what is queued; and the calls of `write` carry, in order, the data of handled
  -- messages, each at most once.
  pub Reach-Conserved :
      (table : List Slot) (w : World) (s : System)
      → Reach cjson handlers routes (launch table w) s
      → Accounts s.routed s.threads (packet s.reactor)
        × (s.threads.accepted ≡ s.handled ++ (in_hand s.dispatcher ++ contents s.threads.queue))
        × Written s.handled s.writes
  Reach-Conserved table w s r =
      let v = Reach-Delivers table w r in
      (
        v.pushes,
        v.queue.fifo
            ∙ ap (λ l. l ++ contents s.threads.queue) v.taken
            ∙ append_assoc s.handled (in_hand s.dispatcher) (contents s.threads.queue),
        v.written,
      )
