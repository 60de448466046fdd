-- ===== src/Daemon/System.antt =====
-- The state of the running daemon: what its threads share, and where each of them stands.
use embedded_device_forwarde.Prelude.{
  false, replicate, ℕ, List, [], ◌∷◌, Bool, true, Option, none, some,
}
use embedded_device_forwarde.Prelude.Int.{ℤ}
use embedded_device_forwarde.Config.Types.{Port}
use embedded_device_forwarde.EventQueue.Ring.{Event}
use embedded_device_forwarde.EventQueue.Threads.{Threads, start}
use embedded_device_forwarde.Ports.Table.{Slot}
use embedded_device_forwarde.Reactor.Loop.{Incoming}
use embedded_device_forwarde.Registry.Entry.{zeroed, max_subprocs}
use embedded_device_forwarde.Registry.Table.{Registry, init}
use embedded_device_forwarde.Dispatcher.Dispatch.{World}

-- `reactor_thread`: the events of the last `epoll_wait` that are still to be served, and the messages
-- of the packet that is being routed that are still to be pushed. Both are empty at the loop's test.
-- The message that waits for room in the queue is in `Threads`.
pub data ReactorAt : Type 0 where
  serving : List Incoming → List Event → ReactorAt
  left : ReactorAt

-- `dispatcher_thread`: at the loop's test, in `queue_pop`, in `router_core_handle` before and after
-- `port_find`.
pub data DispatcherAt : Type 0 where
  testing popping left : DispatcherAt
  holding : Event → DispatcherAt
  sending : Port → Event → DispatcherAt

-- `ipc_thread`: at the loop's test, and in `handle_client`, with the bytes in `buf`, at its test, in
-- its inner loop, and at the label `done`.
pub data IpcAt : Type 0 where
  accepting left : IpcAt
  receiving draining : ℤ → List ℕ → IpcAt
  leaving : ℤ → IpcAt

-- `main`: its loop's test, the `sleep` after it, the calls of `pthread_join`, and its end.
pub data MainAt : Type 0 where
  watching sleeping joining exited : MainAt

-- The run flag, the queue, `g_port_table`, the calls of `write`, and the registry with the rest of
-- what a frame reaches; the four threads; and the history: the number of overdue heartbeats that were
-- found, the messages that routing has made, and those that `router_core_handle` has returned from.
pub record System : Type 0 where
  pub running : Bool
  pub threads : Threads
  pub table : List Slot
  pub writes : List (ℤ × List ℕ)
  pub world : World
  pub reactor : ReactorAt
  pub dispatcher : DispatcherAt
  pub ipc : IpcAt
  pub main : MainAt
  pub warned : ℕ
  pub routed : List Event
  pub handled : List Event

-- The messages of the packet that are still to be pushed.
abbrev pub packet : ReactorAt → List Event
packet (ReactorAt.serving evs msgs) = msgs
packet ReactorAt.left = []

-- The message that the dispatcher has taken and not handled.
abbrev pub in_hand : DispatcherAt → List Event
in_hand (DispatcherAt.holding msg) = msg ∷ []
in_hand (DispatcherAt.sending p msg) = msg ∷ []
in_hand _ = []

-- The client that is connected.
abbrev pub client_of : IpcAt → Option ℤ
client_of (IpcAt.receiving fd buf) = some fd
client_of (IpcAt.draining fd buf) = some fd
client_of (IpcAt.leaving fd) = some fd
client_of _ = none

-- `g_table` when the program starts.
abbrev pub static_registry : Registry
static_registry = record { table = replicate max_subprocs zeroed; inited = false }

-- `registry_init` and `pthread_create` of the three threads, on the table that the start has left. Of
-- the world only the environment is as it is given: the times and the results of calls.
abbrev pub launch : List Slot → World → System
launch table w = record {
  running = true;
  threads = start;
  table = table;
  writes = [];
  world = record w { registry = init static_registry };
  reactor = ReactorAt.serving [] [];
  dispatcher = DispatcherAt.testing;
  ipc = IpcAt.accepting;
  main = MainAt.watching;
  warned = 0;
  routed = [];
  handled = [];
}
