-- ===== src/Daemon/Clients.antt =====
-- Who is in the registry: `ipc_thread` serves one client after the other.
use embedded_device_forwarde.Prelude.{
  Bool, ℕ, ◌≤◌, ◌≡◌, refl, ap, sym, subst, List, [], ◌∷◌, ◌++◌, Option, none, some, All, arith,
  Bool, true, false, if◌then◌else◌, ◌==◌, drop,
}
use embedded_device_forwarde.Prelude.Int.{ℤ}
use embedded_device_forwarde.Prelude.Text.{Text}
use embedded_device_forwarde.Json.{Cjson}
use embedded_device_forwarde.Config.Types.{Route}
use embedded_device_forwarde.Ports.Table.{Slot}
use embedded_device_forwarde.Reactor.Route.{Handler}
use embedded_device_forwarde.Protocol.Cmd
use embedded_device_forwarde.Protocol.Header.{Header}
use embedded_device_forwarde.Registry.Table.{Registry}
use embedded_device_forwarde.Registry.Owner.{
  OnlyOf, registered, registered-none, registered-le-one, OwnedBy, OwnedBy-some, register-OwnedBy,
  update_heartbeat-OwnedBy, unregister-OwnedBy, init_fresh-OwnedBy,
}
use embedded_device_forwarde.Dispatcher.Dispatch.{World, dispatch, hang_up, now_ms}
use embedded_device_forwarde.Dispatcher.Effects.{registry-proto_dispatch}
use embedded_device_forwarde.Daemon.System.{
  System, launch, static_registry, client_of, IpcAt, accepting, receiving, draining, leaving,
}
use embedded_device_forwarde.Daemon.Parts.{ReactorStep-part, DispatcherStep-part, MainStep-part}
use embedded_device_forwarde.Daemon.Steps.{
  IpcStep, accept, recv, finish, framed, starved, full, corrupt, close, Step, reactor, dispatcher,
  ipc, main, signal, Reach, here, next,
}

-- The registry is the connected client's.
abbrev Owned : System → Type 0
Owned s = OwnedBy (client_of s.ipc) s.world.registry

abbrev view : System → IpcAt × World
view s = (s.ipc, s.world)

same-Owned : (s t : System) → view t ≡ view s → Owned s → Owned t
same-Owned s t e = subst (λ x. OwnedBy (client_of x.0) x.1.registry) (sym e)

-- `ipc_thread` goes on to another place, and to another world.
moved-Owned :
    (s t : System) (before after : IpcAt) (w : World)
    → s.ipc ≡ before
    → view t ≡ (after, w)
    → (OwnedBy (client_of before) s.world.registry → OwnedBy (client_of after) w.registry)
    → Owned s
    → Owned t
moved-Owned s t before after w at e f v =
    subst (λ x. OwnedBy (client_of x.0) x.1.registry) (sym e)
      (f (subst (λ a. OwnedBy (client_of a) s.world.registry) at v))

dispatch-OwnedBy :
    (cjson : Cjson) (fd : ℤ) (hdr : Header) (payload : List ℕ) (w : World)
    → OwnedBy (some fd) w.registry
    → OwnedBy (some fd) (dispatch cjson fd hdr payload w).registry
dispatch-OwnedBy cjson fd hdr payload w v =
    subst (OwnedBy (some fd)) (sym (registry-proto_dispatch cjson fd hdr payload w)) (
      choose (hdr.cmd == Cmd.register) (hdr.cmd == Cmd.heartbeat)
        (register-OwnedBy cjson fd payload hdr.payload_len (now_ms w) w.registry v)
        (update_heartbeat-OwnedBy (some fd) fd (now_ms w) w.registry v) v)
  where
    choose :
        (a b : Bool) {x y z : Registry}
        → OwnedBy (some fd) x
        → OwnedBy (some fd) y
        → OwnedBy (some fd) z
        → OwnedBy (some fd) (if a then x else if b then y else z)
    choose true b hx hy hz = hx
    choose false true hx hy hz = hy
    choose false false hx hy hz = hz

module _ (cjson : Cjson) where
  IpcStep-Owned : (s t : System) → IpcStep cjson s t → Owned s → Owned t
  unfolding hang_up
  IpcStep-Owned s t (accept fd at run e) =
      moved-Owned s t accepting (receiving fd []) s.world at (ap view e)
        (OwnedBy-some fd s.world.registry)
  IpcStep-Owned s t (IpcStep.quit at stopped e) =
      moved-Owned s t accepting IpcAt.left s.world at (ap view e) (λ v. v)
  IpcStep-Owned s t (recv fd buf b bytes at run room e) =
      moved-Owned s t (receiving fd buf) (draining fd (buf ++ b ∷ bytes)) s.world at (ap view e)
        (λ v. v)
  IpcStep-Owned s t (finish fd buf at e) =
      moved-Owned s t (receiving fd buf) (leaving fd) s.world at (ap view e) (λ v. v)
  IpcStep-Owned s t (framed fd buf n hdr payload at d e) =
      moved-Owned s t (draining fd buf) (draining fd (drop n buf))
        (dispatch cjson fd hdr payload s.world) at (ap view e)
        (dispatch-OwnedBy cjson fd hdr payload s.world)
  IpcStep-Owned s t (starved fd buf at d short e) =
      moved-Owned s t (draining fd buf) (receiving fd buf) s.world at (ap view e) (λ v. v)
  IpcStep-Owned s t (full fd buf at d filled e) =
      moved-Owned s t (draining fd buf) (leaving fd) s.world at (ap view e) (λ v. v)
  IpcStep-Owned s t (corrupt fd buf err at fatal d e) =
      moved-Owned s t (draining fd buf) (leaving fd) s.world at (ap view e) (λ v. v)
  IpcStep-Owned s t (close fd at e) =
      moved-Owned s t (leaving fd) accepting (hang_up fd s.world) at (ap view e)
        (unregister-OwnedBy fd s.world.registry)

module _ (cjson : Cjson) (handlers : Text → Option Handler) (routes : List Route) where
  Step-Owned : (s t : System) → Step cjson handlers routes s t → Owned s → Owned t
  Step-Owned s t (reactor m) v = same-Owned s t (ap view (ReactorStep-part handlers routes s t m)) v
  Step-Owned s t (dispatcher m) v = same-Owned s t (ap view (DispatcherStep-part s t m)) v
  Step-Owned s t (ipc m) v = IpcStep-Owned cjson s t m v
  Step-Owned s t (main m) v = same-Owned s t (ap view (MainStep-part s t m)) v
  Step-Owned s t (signal sig e) v = same-Owned s t (ap view e) v

  Reach-Owned :
      (table : List Slot) (w : World) {s : System}
      → Reach cjson handlers routes (launch table w) s
      → Owned s
  Reach-Owned table w here = init_fresh-OwnedBy static_registry refl
  Reach-Owned table w (next {t} {u} r m) = Step-Owned t u m (Reach-Owned table w r)

  few : (o : Option ℤ) (r : Registry) → OwnedBy o r → registered r.table ≤ 1
  few none r v = omega (arith, registered-none r.table v.only)
  few (some fd) r v = registered-le-one fd r.table v.valid.distinct v.only

  -- In every interleaving of the threads, at most one subprogram is registered at a time: every
  -- used entry of the registry is of the client that is connected, whose fd it has, and while no
  -- client is connected the registry is empty.
  pub Reach-OneClient :
      (table : List Slot) (w : World) (s : System)
      → Reach cjson handlers routes (launch table w) s
      → (registered s.world.registry.table ≤ 1)
        × All (OnlyOf (client_of s.ipc)) s.world.registry.table
  Reach-OneClient table w s r =
      let v = Reach-Owned table w r in (few (client_of s.ipc) s.world.registry v, v.only)
