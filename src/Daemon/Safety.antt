-- ===== src/Daemon/Safety.antt =====
-- The bounds and the invariants of the components, while the threads run.
use embedded_device_forwarde.Prelude.{
  ℕ, ◌≤◌, ◌<◌, ◌≡◌, refl, ◌∙◌, ap, sym, subst, List, [], ◌∷◌, ◌++◌, Option, length, length-append,
  length-drop, drop, length-replicate, All, All-append, All-left, arith, Bool-cases, inl, inr,
}
use embedded_device_forwarde.Prelude.Int.{ℤ, pos, int_eq}
use embedded_device_forwarde.Prelude.Text.{Text}
use embedded_device_forwarde.Json.{Cjson}
use embedded_device_forwarde.Config.Types.{Route, Config, PortDef, max_ports, base}
use embedded_device_forwarde.Config.Parse.{load_config}
use embedded_device_forwarde.EventQueue.Ring.{Event, max_data}
use embedded_device_forwarde.EventQueue.Fifo.{contents}
use embedded_device_forwarde.Ports.Table.{Slot, add_port}
use embedded_device_forwarde.Ports.Open.{Calls, ports_open_all}
use embedded_device_forwarde.Reactor.Route.{Handler}
use embedded_device_forwarde.Reactor.Bounds.{Fits, Keeps, length-take-Fits}
use embedded_device_forwarde.Plugins.Table.{get_handler}
use embedded_device_forwarde.Plugins.Load.{Dlopen, load_plugins, WellBehaved, load_plugins-Keeps}
use embedded_device_forwarde.Reactor.Loop.{Sound, turn-Sound, length-add_port}
use embedded_device_forwarde.Registry.Invariant.{IsValid, init_fresh-IsValid, unregister-IsValid}
use embedded_device_forwarde.Ipc.Server.{recv_buf_size}
use embedded_device_forwarde.Dispatcher.Dispatch.{World, dispatch, hang_up}
use embedded_device_forwarde.Dispatcher.Effects.{proto_dispatch-IsValid}
use embedded_device_forwarde.Main.Startup.{empty_table, zero_slot, add_ports, restore, startup}
use embedded_device_forwarde.Daemon.System.{
  System, packet, in_hand, launch, static_registry, IpcAt, accepting, receiving, draining, leaving,
}
use embedded_device_forwarde.Daemon.Steps.{
  poll, event, push, wake, ReactorStep, IpcStep, accept, recv, finish, framed, starved, full,
  corrupt, close, Step, reactor, dispatcher, ipc, main, signal, Reach, here, next, turn_of,
}
use embedded_device_forwarde.Daemon.Thinned.{Thinned-All}
use embedded_device_forwarde.Daemon.Account.{
  Accounts, Written, payloads, payloads_of_writes, pending,
}
use embedded_device_forwarde.Daemon.Parts.{DispatcherStep-part, MainStep-part}
use embedded_device_forwarde.Daemon.Delivery.{Reach-Conserved}

-- There is room in `buf` for the next `recv`, and the bytes in it fit.
abbrev pub Room : IpcAt → Type 0
Room (receiving fd buf) = length buf < recv_buf_size
Room (draining fd buf) = length buf ≤ recv_buf_size
Room _ = Unit

pub record Safe (s : System) : Type 0 where
  pub slots : length s.table ≡ max_ports
  pub messages : All Fits (s.handled ++ (in_hand s.dispatcher ++ contents s.threads.queue))
  pub writes : All (λ bytes. length bytes ≤ max_data) (payloads_of_writes s.writes)
  pub room : Room s.ipc
  pub registry : IsValid s.world.registry

-- What each step keeps of it.
record Bounded (s : System) : Type 0 where
  slots : length s.table ≡ max_ports
  fits : All Fits s.routed
  pub room : Room s.ipc
  pub registry : IsValid s.world.registry

hang_up-IsValid : (fd : ℤ) (w : World) → IsValid w.registry → IsValid (hang_up fd w).registry
unfolding hang_up
hang_up-IsValid fd w v = unregister-IsValid fd w.registry v

-- Another place of `ipc_thread`, and another world.
ipc-Bounded :
    (s : System) (at : IpcAt) (w : World)
    → Bounded s
    → Room at
    → IsValid w.registry
    → Bounded (record s { ipc = at; world = w })
ipc-Bounded s at w v room valid = record {
  slots = v.slots;
  fits = v.fits;
  room = room;
  registry = valid;
}

-- What `Bounded` is about.
abbrev view : System → List Slot × List Event × IpcAt × World
view s = (s.table, s.routed, s.ipc, s.world)

same-Bounded : (s t : System) → view t ≡ view s → Bounded s → Bounded t
same-Bounded s t e v = record {
  slots = subst (λ x. length x.0 ≡ max_ports) (sym e) v.slots;
  fits = subst (λ x. All Fits x.1) (sym e) v.fits;
  room = subst (λ x. Room x.2) (sym e) v.room;
  registry = subst (λ x. IsValid x.3.registry) (sym e) v.registry;
}

module _ (handlers : Text → Option Handler) (routes : List Route) (keeps : Keeps handlers) where
  ReactorStep-Bounded : (s t : System) → ReactorStep handlers routes s t → Bounded s → Bounded t
  unfolding Sound
  ReactorStep-Bounded s t (poll evs at idle run few reads e) v = same-Bounded s t (ap view e) v
  ReactorStep-Bounded s t (ReactorStep.quit at idle stopped e) v = same-Bounded s t (ap view e) v
  ReactorStep-Bounded s t (push msg msgs evs at idle e) v = same-Bounded s t (ap view e) v
  ReactorStep-Bounded s t (wake timed_out msg at e) v = same-Bounded s t (ap view e) v
  ReactorStep-Bounded s t (event ev evs at idle read e) v =
      let u =
        turn-Sound handlers routes keeps ev.port.kind ev.port ev.accepted ev.stack ev.bytes s.table
          read.0 read.1 in
      subst Bounded (sym e) (record {
        slots = u.0 ∙ v.slots;
        fits = All-append Fits s.routed (turn_of handlers routes ev s.table).pushed v.fits u.1;
        room = v.room;
        registry = v.registry;
      })

module _ (cjson : Cjson) where
  IpcStep-Bounded : (s t : System) → IpcStep cjson s t → Bounded s → Bounded t
  IpcStep-Bounded s t (accept fd at run e) v =
      subst Bounded (sym e) (ipc-Bounded s (receiving fd []) s.world v (omega arith) v.registry)
  IpcStep-Bounded s t (IpcStep.quit at stopped e) v =
      subst Bounded (sym e) (ipc-Bounded s IpcAt.left s.world v tt v.registry)
  IpcStep-Bounded s t (recv fd buf b bytes at run room e) v = subst Bounded (sym e) (
      ipc-Bounded s (draining fd (buf ++ b ∷ bytes)) s.world v
        (omega (arith, length-append buf (b ∷ bytes))) v.registry)
  IpcStep-Bounded s t (finish fd buf at e) v =
      subst Bounded (sym e) (ipc-Bounded s (leaving fd) s.world v tt v.registry)
  IpcStep-Bounded s t (framed fd buf n hdr payload at d e) v =
      let had : length buf ≤ recv_buf_size = subst Room at v.room in
      subst Bounded (sym e) (
        ipc-Bounded s (draining fd (drop n buf)) (dispatch cjson fd hdr payload s.world) v
          (omega (arith, length-drop n buf))
          (proto_dispatch-IsValid cjson fd hdr payload s.world v.registry))
  IpcStep-Bounded s t (starved fd buf at d short e) v =
      let had : length buf ≤ recv_buf_size = subst Room at v.room in
      subst Bounded (sym e) (ipc-Bounded s (receiving fd buf) s.world v (omega arith) v.registry)
  IpcStep-Bounded s t (full fd buf at d filled e) v =
      subst Bounded (sym e) (ipc-Bounded s (leaving fd) s.world v tt v.registry)
  IpcStep-Bounded s t (corrupt fd buf err at fatal d e) v =
      subst Bounded (sym e) (ipc-Bounded s (leaving fd) s.world v tt v.registry)
  IpcStep-Bounded s t (close fd at e) v =
      subst Bounded (sym e)
        (ipc-Bounded s accepting (hang_up fd s.world) v tt (hang_up-IsValid fd s.world v.registry))

launch-Bounded :
    (table : List Slot) (w : World) → length table ≡ max_ports → Bounded (launch table w)
launch-Bounded table w e = record {
  slots = e;
  fits = tt;
  room = tt;
  registry = init_fresh-IsValid static_registry refl;
}

length-add_ports :
    (ps : List PortDef) (table : List Slot) → length (add_ports ps table) ≡ length table
unfolding add_ports
length-add_ports [] table = refl
length-add_ports (p ∷ ps) table =
    length-add_ports ps (add_port (base p) table).0 ∙ length-add_port (base p) table

length-restore :
    (sys : ℕ → Calls) (loaded : ℤ × Config) → length (restore sys loaded).table ≡ max_ports
unfolding restore
length-restore sys (status, cfg) = elim (Bool-cases (int_eq status (pos 0))) [
  | inl b ↦ rw b (
      length-add_ports (ports_open_all sys 0 cfg.ports).1 empty_table
      ∙ length-replicate max_ports zero_slot)
  | inr b ↦ rw b (length-replicate max_ports zero_slot)
]

All-payloads :
    (msgs : List Event) → All Fits msgs → All (λ bytes. length bytes ≤ max_data) (payloads msgs)
All-payloads [] h = tt
All-payloads (msg ∷ msgs) h = (length-take-Fits msg h.0, All-payloads msgs h.1)

module _ (cjson : Cjson) (handlers : Text → Option Handler) (routes : List Route)
    (keeps : Keeps handlers) where
  Step-Bounded : (s t : System) → Step cjson handlers routes s t → Bounded s → Bounded t
  Step-Bounded s t (reactor m) v = ReactorStep-Bounded handlers routes keeps s t m v
  Step-Bounded s t (dispatcher m) v = same-Bounded s t (ap view (DispatcherStep-part s t m)) v
  Step-Bounded s t (ipc m) v = IpcStep-Bounded cjson s t m v
  Step-Bounded s t (main m) v = same-Bounded s t (ap view (MainStep-part s t m)) v
  Step-Bounded s t (signal sig e) v = same-Bounded s t (ap view e) v

  Reach-Bounded :
      (table : List Slot) (w : World) {s : System}
      → length table ≡ max_ports
      → Reach cjson handlers routes (launch table w) s
      → Bounded s
  Reach-Bounded table w size here = launch-Bounded table w size
  Reach-Bounded table w size (next {t} {u} r m) = Step-Bounded t u m (Reach-Bounded table w size r)

  Reach-Fits :
      (table : List Slot) (w : World) (s : System)
      → length table ≡ max_ports
      → Reach cjson handlers routes (launch table w) s
      → All Fits (s.handled ++ (in_hand s.dispatcher ++ contents s.threads.queue))
        × All (λ bytes. length bytes ≤ max_data) (payloads_of_writes s.writes)
  unfolding Accounts Written
  Reach-Fits table w s size r =
      let ((ended, split, kept), order, (sent, n, part, same)) =
        Reach-Conserved cjson handlers routes table w s r in
      let accepted = Thinned-All Fits ended s.threads.accepted s.threads.lost kept (
        All-left Fits ended (pending s.threads.waiting ++ packet s.reactor)
          (subst (All Fits) split (Reach-Bounded table w size r).fits)) in
      let all = subst (All Fits) order accepted in
      let handled =
        All-left Fits s.handled (in_hand s.dispatcher ++ contents s.threads.queue) all in
      (
        all,
        subst (All (λ bytes. length bytes ≤ max_data)) (sym same)
            (All-payloads sent (Thinned-All Fits s.handled sent n part handled)),
      )

  Reach-Safe :
      (table : List Slot) (w : World) (s : System)
      → length table ≡ max_ports
      → Reach cjson handlers routes (launch table w) s
      → Safe s
  Reach-Safe table w s size r =
      let v = Reach-Bounded table w size r in
      let fits = Reach-Fits table w s size r in
      record {
        slots = v.slots;
        messages = fits.0;
        writes = fits.1;
        room = v.room;
        registry = v.registry;
      }

-- A daemon that was started with any configuration file, and whose plugins register only handlers
-- that write within the buffer, stays within its bounds in every interleaving of its threads: the
-- port table has 32 slots; each message that was handled, is held or is queued has at most 1024
-- bytes and as many as it says, and the data of each write has at most 1024; whenever `recv` is
-- called there is room in the buffer; and the registry has 32 slots of which no two used ones share
-- an fd or a device id.
pub started-Safe :
    (cjson : Cjson) (file : Option (List ℕ)) (sys : ℕ → Calls) (g_config : Config)
    → (dlopen : Dlopen) (w : World) (s : System) → WellBehaved dlopen
    → (let started = startup cjson file sys g_config in
        let handlers = get_handler (load_plugins dlopen 0 started.loaded []) in
        Reach cjson handlers started.config.routes (launch started.table w) s)
    → Safe s
unfolding startup
started-Safe cjson file sys g_config dlopen w s good =
    let started = restore sys (load_config cjson file g_config) in
    Reach-Safe cjson (get_handler (load_plugins dlopen 0 started.loaded [])) started.config.routes
      (load_plugins-Keeps dlopen started.loaded good) started.table w s
      (length-restore sys (load_config cjson file g_config))
