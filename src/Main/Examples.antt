-- ===== src/Main/Examples.antt =====
-- A start with one IPC port, and a packet that arrives for two of its clients.
use embedded_device_forwarde.Prelude.{
  ℕ, ◌≡◌, refl, List, [], ◌∷◌, true, Option, some, none, length, take, replicate, All, arith,
}
use embedded_device_forwarde.Prelude.Int.{pos, minus_one}
use embedded_device_forwarde.Prelude.Text.{Text, codes, str_eq}
use embedded_device_forwarde.Json.Doc.{Doc, text, object, field, array, entry, reader}
use embedded_device_forwarde.Config.Types.{Route, PortType, clear_config}
use embedded_device_forwarde.Config.Parse.{load_config}
use embedded_device_forwarde.Config.Lookup.{from_src}
use embedded_device_forwarde.EventQueue.Ring.{Event, Queue, empty, blank}
use embedded_device_forwarde.EventQueue.Fifo.{IsValid, contents}
use embedded_device_forwarde.Ports.Table.{Slot}
use embedded_device_forwarde.Ports.Send.{Net}
use embedded_device_forwarde.Ports.Open.{Calls}
use embedded_device_forwarde.Reactor.Route.{Handler, after_read, route_packet, max_packet_routes}
use embedded_device_forwarde.Reactor.Forward.{Plain, copies}
use embedded_device_forwarde.Main.Log.{log_default, read_args, log_write}
use embedded_device_forwarde.Main.Startup.{startup}
use embedded_device_forwarde.Main.Filled.{Complete, startup-table}
use embedded_device_forwarde.Main.Dispatcher.{
  dispatcher_thread, handle_all, Handled, dispatcher_thread-Handled,
}
use embedded_device_forwarde.Main.EndToEnd.{push_all, packet-Handled}

abbrev doc : Doc
doc =
    let path = field object (codes "path") (text (codes "/run/h")) in
    let named = field object (codes "name") (text (codes "host")) in
    let typed = field named (codes "type") (text (codes "ipc")) in
    field object (codes "ports") (entry array (field typed (codes "ipc") path))

abbrev sys : ℕ → Calls
sys i = record {
  open_dev = minus_one;
  tcgetattr = pos 0;
  tcsetattr = pos 0;
  socket = pos 6;
  connect = pos 0;
  bind = pos 0;
  listen = pos 0;
}

doc_loads : (load_config (reader doc) (some []) clear_config).0 ≡ pos 0
unfolding load_config
doc_loads = refl

startup-table_example : Complete (startup (reader doc) (some []) sys clear_config)
startup-table_example = startup-table (reader doc) (some []) sys clear_config doc_loads

-- `-quiet` turns the log off and keeps the level.
quiet_debug :
    log_write 3 (codes "up") (read_args (codes "-debug" ∷ codes "-quiet" ∷ []) log_default) ≡ []
unfolding log_write read_args str_eq
quiet_debug = refl

abbrev hello : Event
hello = record { dst = codes "host"; len = 2; bytes = codes "hi" }

abbrev one_message : Queue
one_message = record { slots = hello ∷ replicate 127 blank; head = 0; tail = 1; drops = 0 }

one_message-IsValid : IsValid one_message
one_message-IsValid = omega arith

empty-IsValid : IsValid empty
empty-IsValid = omega arith

abbrev net : Net
net = record { writes = []; result = λ n. pos 2 }

abbrev clients : List Slot
clients =
    record {
      used = true;
      fd = pos 7;
      port = some (record { name = codes "host"; kind = PortType.ipc_client; fd = pos 7 });
    }
    ∷ []

dispatcher_thread-Handled_example :
    Handled 3 clients (contents one_message) net (dispatcher_thread 3 clients one_message net)
dispatcher_thread-Handled_example =
    dispatcher_thread-Handled 3 clients one_message net one_message-IsValid

abbrev plain : Text → Option Handler
plain name = none

abbrev routes : List Route
routes =
    record { src = codes "uart"; dst = codes "host"; plugin = []; handler = [] }
    ∷ record { src = codes "uart"; dst = codes "log"; plugin = []; handler = [] }
    ∷ []

routes-Plain : All (Plain plain) (from_src (codes "uart") routes)
unfolding from_src str_eq
routes-Plain = (refl, (refl, tt))

packet-Handled_example :
    let bytes = codes "hi" in
    let packet = route_packet plain routes (codes "uart") (after_read [] bytes) (length bytes) in
    let after = dispatcher_thread 20 clients (push_all packet empty) net in
    (contents after.0 ≡ [])
    × (after.1
        ≡ handle_all
            (copies bytes (take max_packet_routes (from_src (codes "uart") routes)))
            clients
            net)
packet-Handled_example =
    packet-Handled plain routes (codes "uart") [] (codes "hi") empty clients net 20 routes-Plain
      empty-IsValid refl (omega arith)
