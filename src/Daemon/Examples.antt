-- ===== src/Daemon/Examples.antt =====
-- A daemon with a serial line and a USB line, of which each routes to the other, at work.
use embedded_device_forwarde.Prelude.{
  ◌*◌, false, ℕ, ◌+◌, ◌≤◌, drop, ap, subst, ◌≡◌, ◌≢◌, refl, ◌⊎◌, List, [], ◌∷◌, ◌++◌, Option, some,
  none, length, length-replicate, replicate, All, arith,
}
use embedded_device_forwarde.Prelude.Int.{pos, minus_one}
use embedded_device_forwarde.Prelude.Text.{Text, codes, str_eq, str_ieq}
use embedded_device_forwarde.Json.Doc.{Doc, text, object, field, array, entry, reader}
use embedded_device_forwarde.Config.Types.{Port, PortType, clear_config}
use embedded_device_forwarde.Ports.Open.{Calls, ports_open_all}
use embedded_device_forwarde.Reactor.Route.{Handler, buf_size, route_packet}
use embedded_device_forwarde.Reactor.Loop.{Incoming, IsRead}
use embedded_device_forwarde.Dispatcher.Dispatch.{World}
use embedded_device_forwarde.Main.Startup.{Started, startup}
use embedded_device_forwarde.EventQueue.Ring.{Event, push_start, pop_start}
use embedded_device_forwarde.EventQueue.Fifo.{contents}
use embedded_device_forwarde.Config.Parse.{load_config}
use embedded_device_forwarde.Reactor.Turn.{turn}
use embedded_device_forwarde.Ports.Table.{port_find, add_port}
use embedded_device_forwarde.Config.Lookup.{find_routes_by_src}
use embedded_device_forwarde.Plugins.Table.{HandlerEntry, get_handler, register_handler}
use embedded_device_forwarde.Plugins.Keep.{AllKeep}
use embedded_device_forwarde.Plugins.Load.{Dlopen, WellBehaved, load_plugins}
use embedded_device_forwarde.Plugins.Filter.{plugin_init, plugin_init-AllKeep, usb_to_uart}
use embedded_device_forwarde.Daemon.System.{
  ReactorAt, popping, exited, System, packet, in_hand, client_of, launch,
}
use embedded_device_forwarde.Daemon.Steps.{
  turn_of, poll, event, push, enter, pop, pop, found, send, accept, recv, framed, reactor,
  dispatcher, ipc, Reach, here, next,
}
use embedded_device_forwarde.Daemon.Account.{Accounts, Written}
use embedded_device_forwarde.Daemon.Delivery.{Reach-Conserved}
use embedded_device_forwarde.Daemon.Safety.{Safe, started-Safe}
use embedded_device_forwarde.Daemon.Clients.{Reach-OneClient}
use embedded_device_forwarde.Daemon.Shutdown.{Hangs, launch-hang}
use embedded_device_forwarde.Daemon.Orderly.{Over}
use embedded_device_forwarde.Daemon.Exit.{exited-Settled}
use embedded_device_forwarde.Daemon.Progress.{stopped-Ends}
use embedded_device_forwarde.Daemon.Thinned.{Thinned}
use embedded_device_forwarde.Main.Log.{run_state_handle_signal, sigterm}
use embedded_device_forwarde.Daemon.Steps.{
  signal, main, stop, join, ReactorStep, IpcStep, DispatcherStep,
}
use embedded_device_forwarde.Json.Toy.{toy}
use embedded_device_forwarde.Protocol.Cmd
use embedded_device_forwarde.Protocol.Header.{Header, header_bytes}
use embedded_device_forwarde.Protocol.Decode.{decode}
use embedded_device_forwarde.Registry.Entry.{copy_field}
use embedded_device_forwarde.Registry.Parse.{parse_register_json}
use embedded_device_forwarde.Registry.Table.{register, init, claim, scan}
use embedded_device_forwarde.Ipc.Server.{recv_buf_size}
use embedded_device_forwarde.Dispatcher.Effects.{registry-proto_dispatch}
use embedded_device_forwarde.Registry.Owner.{OnlyOf, registered}

-- The object of a serial port.
abbrev serial : Text → Doc
serial name =
    let named = field object (codes "name") (text name) in
    let typed = field named (codes "type") (text (codes "tty")) in
    field typed (codes "tty") (field object (codes "path") (text (codes "/dev/tty")))

abbrev doc : Doc
doc =
    let to_usb =
      field (field object (codes "src") (text (codes "uart"))) (codes "dst") (text (codes "usb")) in
    let route = field to_usb (codes "handler") (text (codes "filter.usb_to_uart")) in
    let filter =
      field (field object (codes "name") (text (codes "filter"))) (codes "path")
        (text (codes "filter.so")) in
    let ports = entry (entry array (serial (codes "uart"))) (serial (codes "usb")) in
    let plugged =
      field (field object (codes "ports") ports) (codes "plugins") (entry array filter) in
    field plugged (codes "routes") (entry array route)

-- The i-th port is opened with the fd i + 7.
abbrev sys : ℕ → Calls
sys i = record {
  open_dev = pos (i + 7);
  tcgetattr = pos 0;
  tcsetattr = pos 0;
  socket = minus_one;
  connect = pos 0;
  bind = pos 0;
  listen = pos 0;
}

abbrev started : Started
started = startup (reader doc) (some []) sys clear_config

abbrev dlopen : Dlopen
dlopen i path = some plugin_init

Leaves : List HandlerEntry → Option (List HandlerEntry → List HandlerEntry) → Type 0
Leaves table none = Unit
Leaves table (some constructors) = AllKeep (constructors table)

dlopen-WellBehaved : WellBehaved dlopen
unfolding Leaves
dlopen-WellBehaved i path constructors e table k =
    subst (Leaves table) e (plugin_init-AllKeep table k)

abbrev handlers : Text → Option Handler
handlers = get_handler (load_plugins dlopen 0 started.loaded [])

abbrev no_plugins : Text → Option Handler
no_plugins name = none

abbrev world : World
world = record {
  registry = record { table = []; inited = false };
  output = [];
  notes = [];
  clock = λ n. n * 1000;
  turn = 0;
  script = [];
  stack = [];
}

abbrev hi : Incoming
hi = record {
  port = record { name = codes "uart"; kind = PortType.tty; fd = pos 7 };
  accepted = minus_one;
  bytes = codes "hi";
  stack = replicate buf_size 170;
}

hi-IsRead : IsRead hi
hi-IsRead = (omega arith, length-replicate {A = ℕ} buf_size 170)

abbrev msg : Event
msg = record { dst = codes "usb"; len = 2; bytes = codes "HI" }

abbrev usb : Port
usb = record { name = codes "usb"; kind = PortType.tty; fd = pos 8 }

made_capitals : (turn_of handlers started.config.routes hi started.table).pushed ≡ msg ∷ []
unfolding startup turn route_packet find_routes_by_src load_config str_ieq str_eq get_handler
    load_plugins plugin_init register_handler usb_to_uart
made_capitals = refl

usb_found :
    port_find (codes "usb") (turn_of handlers started.config.routes hi started.table).table
    ≡ some usb
unfolding startup turn port_find load_config ports_open_all str_ieq add_port str_eq
usb_found = refl

-- Two bytes are read from the serial line, made capitals, queued, popped, and written to the USB line.
run :
    (s : System) × Reach (reader doc) handlers started.config.routes (launch started.table world) s
unfolding push_start pop_start
run =
    let polled =
      next here (reactor (poll (hi ∷ []) refl refl refl (omega arith) (hi-IsRead, tt) refl)) in
    let routed = next polled (reactor (event hi [] refl refl hi-IsRead refl)) in
    let queued =
      next routed
        (reactor (push msg [] [] (ap (λ l. ReactorAt.serving [] l) made_capitals) refl refl)) in
    let entered = next queued (dispatcher (enter refl refl refl)) in
    let popped = next entered (dispatcher (pop msg _ refl refl refl)) in
    let hit = next popped (dispatcher (found msg usb refl usb_found refl)) in
    (_, next hit (dispatcher (send msg usb (λ n. pos 2) refl refl)))

Reach-Conserved_example :
    Accounts run.0.routed run.0.threads (packet run.0.reactor)
    × (run.0.threads.accepted
        ≡ run.0.handled ++ (in_hand run.0.dispatcher ++ contents run.0.threads.queue))
    × Written run.0.handled run.0.writes
Reach-Conserved_example =
    Reach-Conserved (reader doc) handlers started.config.routes started.table world run.0 run.1

started-Safe_example : Safe run.0
started-Safe_example =
    started-Safe (reader doc) (some []) sys clear_config dlopen world run.0 dlopen-WellBehaved run.1

-- The REGISTER frame of the device A.
abbrev hello : Header
hello = record {
  magic_field = 0xEB7C;
  version_field = 1;
  cmd = Cmd.register;
  seq = 9;
  payload_len = 1;
}

abbrev hello_bytes : List ℕ
hello_bytes = header_bytes hello ++ codes "A"

hello_room : length hello_bytes ≤ recv_buf_size
hello_room = omega arith

-- A client connects and registers.
client_run : (s : System) × Reach toy no_plugins [] (launch [] world) s
unfolding decode
client_run =
    let accepted = next here (ipc (accept (pos 9) refl refl refl)) in
    let received =
      next accepted (ipc (recv (pos 9) [] 0x7C (drop 1 hello_bytes) refl refl hello_room refl)) in
    (_, next received (ipc (framed (pos 9) hello_bytes 13 hello (codes "A") refl refl refl)))

Reach-OneClient_example :
    (registered client_run.0.world.registry.table ≤ 1)
    × All (OnlyOf (client_of client_run.0.ipc)) client_run.0.world.registry.table
Reach-OneClient_example = Reach-OneClient toy no_plugins [] [] world client_run.0 client_run.1

one_registered : registered client_run.0.world.registry.table ≡ 1
unfolding client_run registered register init claim scan parse_register_json copy_field str_eq
one_registered =
    ap (λ r. registered r.table)
      (registry-proto_dispatch toy (pos 9) hello (codes "A") (launch [] world).world)

launch-hang_example :
    ((s : System) × Reach toy no_plugins [] (launch [] world) s × Hangs s)
    × ((s t : System)
        → Hangs s
        → Reach toy no_plugins [] s t
        → (t.dispatcher ≡ popping) × (t.main ≢ exited))
launch-hang_example = launch-hang toy no_plugins [] [] world

-- SIGTERM comes before the dispatcher has entered `queue_pop`, and every thread ends.
ended_run : (s : System) × Reach toy no_plugins [] (launch [] world) s
ended_run =
    let stopped = next here (signal sigterm refl) in
    let reactor_left = next stopped (reactor (ReactorStep.quit refl refl refl refl)) in
    let ipc_left = next reactor_left (ipc (IpcStep.quit refl refl refl)) in
    let all_left = next ipc_left (dispatcher (DispatcherStep.quit refl refl refl)) in
    let joins = next all_left (main (stop refl refl refl)) in
    (_, next joins (main (join refl refl refl refl refl)))

-- Another signal after the end.
late_signal :
    Reach toy no_plugins [] ended_run.0
      (record ended_run.0 { running = run_state_handle_signal sigterm ended_run.0.running })
late_signal = next here (signal sigterm refl)

exited-Settled_example :
    Over ended_run.0
    × (registered ended_run.0.world.registry.table ≡ 0)
    × Thinned ended_run.0.routed
        (ended_run.0.handled ++ contents ended_run.0.threads.queue)
        ended_run.0.threads.lost
    × (record ended_run.0 { running = run_state_handle_signal sigterm ended_run.0.running }
        ≡ ended_run.0)
unfolding ended_run
exited-Settled_example =
    exited-Settled toy no_plugins [] [] world ended_run.0
      (record ended_run.0 { running = run_state_handle_signal sigterm ended_run.0.running })
      ended_run.1 refl late_signal

-- SIGTERM comes when two bytes have been read and forwarded.
stopped_run :
    (s : System) × Reach (reader doc) handlers started.config.routes (launch started.table world) s
stopped_run = (_, next run.1 (signal sigterm refl))

stopped-Ends_example :
    (t : System) × Reach (reader doc) handlers started.config.routes stopped_run.0 t
    × ((t.main ≡ exited) ⊎ Hangs t)
unfolding run stopped_run
stopped-Ends_example =
    stopped-Ends (reader doc) handlers started.config.routes started.table world stopped_run.0
      stopped_run.1 refl
