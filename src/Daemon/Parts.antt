-- ===== src/Daemon/Parts.antt =====
-- What a step of each thread leaves alone: all but the thread's own part of the state.
use embedded_device_forwarde.Prelude.{◌≡◌, refl, ◌∙◌, ap, sym, List, Option}
use embedded_device_forwarde.Prelude.Text.{Text}
use embedded_device_forwarde.Json.{Cjson}
use embedded_device_forwarde.Config.Types.{Route}
use embedded_device_forwarde.Reactor.Route.{Handler}
use embedded_device_forwarde.Daemon.System.{System}
use embedded_device_forwarde.Daemon.Steps.{
  poll, event, push, wake, ReactorStep, DispatcherStep, pop, unknown, found, send, IpcStep, accept,
  recv, finish, framed, starved, full, corrupt, close, MainStep, watch, stop, join,
}

-- The first state, with the part of one thread as in the second.
abbrev pub reactor_part : System → System → System
reactor_part s x = record s {
  table = x.table;
  reactor = x.reactor;
  threads = x.threads;
  routed = x.routed;
}

abbrev pub dispatcher_part : System → System → System
dispatcher_part s x = record s {
  threads = record s.threads { queue = x.threads.queue; delivered = x.threads.delivered };
  dispatcher = x.dispatcher;
  writes = x.writes;
  handled = x.handled;
}

abbrev pub ipc_part : System → System → System
ipc_part s x = record s { ipc = x.ipc; world = x.world }

abbrev pub main_part : System → System → System
main_part s x = record s { main = x.main; warned = x.warned }

-- A state that is equal to one whose part is its own.
by_part : (part : System → System) {t u : System} → t ≡ u → u ≡ part u → t ≡ part t
by_part part e k = e ∙ k ∙ ap part (sym e)

pub ReactorStep-part :
    (handlers : Text → Option Handler) (routes : List Route) (s t : System)
    → ReactorStep handlers routes s t
    → t ≡ reactor_part s t
ReactorStep-part handlers routes s t (poll evs at idle run few reads e) =
    by_part (reactor_part s) e refl
ReactorStep-part handlers routes s t (ReactorStep.quit at idle stopped e) =
    by_part (reactor_part s) e refl
ReactorStep-part handlers routes s t (event ev evs at idle read e) = by_part (reactor_part s) e refl
ReactorStep-part handlers routes s t (push msg msgs evs at idle e) = by_part (reactor_part s) e refl
ReactorStep-part handlers routes s t (wake timed_out msg at e) = by_part (reactor_part s) e refl

pub DispatcherStep-part : (s t : System) → DispatcherStep s t → t ≡ dispatcher_part s t
DispatcherStep-part s t (DispatcherStep.enter at run e) = by_part (dispatcher_part s) e refl
DispatcherStep-part s t (DispatcherStep.quit at stopped e) = by_part (dispatcher_part s) e refl
DispatcherStep-part s t (pop msg q at popped e) = by_part (dispatcher_part s) e refl
DispatcherStep-part s t (unknown msg at missing e) = by_part (dispatcher_part s) e refl
DispatcherStep-part s t (found msg p at hit e) = by_part (dispatcher_part s) e refl
DispatcherStep-part s t (send msg p result at e) = by_part (dispatcher_part s) e refl

pub IpcStep-part : (cjson : Cjson) (s t : System) → IpcStep cjson s t → t ≡ ipc_part s t
IpcStep-part cjson s t (accept fd at run e) = by_part (ipc_part s) e refl
IpcStep-part cjson s t (IpcStep.quit at stopped e) = by_part (ipc_part s) e refl
IpcStep-part cjson s t (recv fd buf b bytes at run room e) = by_part (ipc_part s) e refl
IpcStep-part cjson s t (finish fd buf at e) = by_part (ipc_part s) e refl
IpcStep-part cjson s t (framed fd buf n hdr payload at d e) = by_part (ipc_part s) e refl
IpcStep-part cjson s t (starved fd buf at d short e) = by_part (ipc_part s) e refl
IpcStep-part cjson s t (full fd buf at d filled e) = by_part (ipc_part s) e refl
IpcStep-part cjson s t (corrupt fd buf err at fatal d e) = by_part (ipc_part s) e refl
IpcStep-part cjson s t (close fd at e) = by_part (ipc_part s) e refl

pub MainStep-part : (s t : System) → MainStep s t → t ≡ main_part s t
MainStep-part s t (MainStep.enter at run e) = by_part (main_part s) e refl
MainStep-part s t (watch tv_sec tv_nsec at e) = by_part (main_part s) e refl
MainStep-part s t (stop at stopped e) = by_part (main_part s) e refl
MainStep-part s t (join at r i d e) = by_part (main_part s) e refl
