-- ===== src/Reactor/Memory/Examples.antt =====
-- A TCP server and a serial line, and a configured TCP client.
use embedded_device_forwarde.Prelude.{◌≡◌, ◌↔◌, refl, List, [], ◌∷◌, false, Option, none, some}
use embedded_device_forwarde.Prelude.Int.{pos, minus_one}
use embedded_device_forwarde.Prelude.Text.{Text, codes}
use embedded_device_forwarde.Config.Types.{Port, PortDef, tcp_server_conf, tcp_client_conf}
use embedded_device_forwarde.Reactor.Route.{Handler}
use embedded_device_forwarde.Reactor.Memory.{
  static, calloced, Memory, PtrEvent, free, pointer_of, put_ptr, reactor_add_port, add_all, on_end,
  on_connect, serve, on_event,
}
use embedded_device_forwarde.Reactor.Memory.Events.{IsPossible, IsWrongFree, Becomes}
use embedded_device_forwarde.Reactor.Memory.Safety.{table_after}
use embedded_device_forwarde.Reactor.Memory.Start.{OwnFds}
use embedded_device_forwarde.Reactor.Memory.Run.{
  Served, begin, next, on_event_faults_iff, on_event-Refines,
}

abbrev server : PortDef
server = record {
  name = codes "host";
  fd = pos 3;
  use_frame = false;
  conf = tcp_server_conf (codes "0.0.0.0") (pos 9000) (pos 1);
}

abbrev client : PortDef
client = record {
  name = codes "peer";
  fd = pos 4;
  use_frame = false;
  conf = tcp_client_conf (codes "10.0.0.1") (pos 9000);
}

abbrev no_plugins : Text → Option Handler
no_plugins name = none

abbrev servers : List PortDef
servers = server ∷ []

servers-OwnFds : OwnFds servers
servers-OwnFds = (λ h. tt, tt)

-- A connection with the fd 5.
abbrev connects : PtrEvent
connects = record { ptr = static 0; accepted = pos 5; bytes = [] }

abbrev ends : PtrEvent
ends = record { ptr = calloced 0; accepted = minus_one; bytes = [] }

connected : (m : Memory) × Served servers m
unfolding add_all reactor_add_port put_ptr on_event serve on_connect
connected =
    (_, next connects (begin refl) (record { fd = pos 3; ready = refl; opened = λ h. refl }) refl)

ends-IsPossible : IsPossible ends connected.0
unfolding connected
ends-IsPossible = record { fd = pos 5; ready = refl; opened = λ h. refl }

on_event-Refines_example :
    (p : Port) × (connected.0.cell (calloced 0) ≡ some p)
    × Becomes connected.0
        (on_event ends connected.0)
        (table_after no_plugins [] p ends [] connected.0)
on_event-Refines_example =
    on_event-Refines no_plugins [] [] servers connected.0 ends servers-OwnFds (refl, tt) connected.1
      ends-IsPossible

-- The connection has ended.
ended : (u : Memory) × (on_event ends connected.0 ≡ some u)
unfolding connected on_event serve on_end free pointer_of put_ptr
ended = (_, refl)

ended_freed : ended.0.cell (calloced 0) ≡ none
unfolding ended
ended_freed = refl

abbrev mixed : List PortDef
mixed = server ∷ client ∷ []

mixed-OwnFds : OwnFds mixed
mixed-OwnFds = (λ h. ((λ e. cc e), tt), ((λ h. tt), tt))

configured : (m : Memory) × Served mixed m
unfolding add_all reactor_add_port put_ptr
configured = (_, begin refl)

-- The peer of the configured TCP client has closed.
abbrev hangs_up : PtrEvent
hangs_up = record { ptr = static 1; accepted = minus_one; bytes = [] }

hangs_up-IsPossible : IsPossible hangs_up configured.0
unfolding configured
hangs_up-IsPossible = record { fd = pos 4; ready = refl; opened = λ h. refl }

on_event_faults_iff_example :
    (on_event hangs_up configured.0 ≡ none) ↔ IsWrongFree hangs_up configured.0
on_event_faults_iff_example =
    on_event_faults_iff mixed configured.0 hangs_up mixed-OwnFds configured.1 hangs_up-IsPossible

hangs_up_faults : on_event hangs_up configured.0 ≡ none
unfolding configured on_event serve on_end free pointer_of put_ptr
hangs_up_faults = refl
