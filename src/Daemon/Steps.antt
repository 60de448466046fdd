-- ===== src/Daemon/Steps.antt =====
-- The steps of the daemon's threads, each up to the next access to what they share. `epoll_wait`,
-- `accept` and `recv` touch nothing of that, and are one step with the test of the run flag before them. The queue and
-- the registry are accessed under their locks; `g_port_table` has none, and a search in it, an entry
-- and a removal are taken as one step each.
use embedded_device_forwarde.Prelude.{
  ℕ, ◌+◌, ◌≤◌, ◌≡◌, ◌≢◌, List, [], ◌∷◌, ◌++◌, Bool, true, false, Option, none, some, length, take,
  drop, All,
}
use embedded_device_forwarde.Prelude.Int.{ℤ}
use embedded_device_forwarde.Prelude.Text.{Text}
use embedded_device_forwarde.Json.{Cjson}
use embedded_device_forwarde.Config.Types.{Port, Route}
use embedded_device_forwarde.EventQueue.Ring.{Event, Queue, push_start, push_wake, pop_start}
use embedded_device_forwarde.EventQueue.Threads.{settle}
use embedded_device_forwarde.Ports.Table.{Slot, port_find}
use embedded_device_forwarde.Ports.Send.{port_send}
use embedded_device_forwarde.Reactor.Route.{Handler}
use embedded_device_forwarde.Reactor.Turn.{Turn, turn}
use embedded_device_forwarde.Reactor.Loop.{Incoming, IsRead}
use embedded_device_forwarde.Protocol.Header.{Header, ProtoErr, incomplete}
use embedded_device_forwarde.Protocol.Decode.{frame, fail, decode}
use embedded_device_forwarde.Ipc.Server.{recv_buf_size}
use embedded_device_forwarde.Dispatcher.Dispatch.{dispatch, hang_up}
use embedded_device_forwarde.Supervisor.Heartbeat.{check_heartbeats}
use embedded_device_forwarde.Main.Log.{run_state_handle_signal}
use embedded_device_forwarde.Daemon.System.{
  System, ReactorAt, DispatcherAt, testing, popping, holding, sending, IpcAt, accepting, receiving,
  draining, leaving, watching, sleeping, joining, exited,
}

-- The size of `evs`.
abbrev pub max_events : ℕ
max_events = 16

-- `HB_TIMEOUT_MS`.
abbrev pub hb_timeout_ms : ℕ
hb_timeout_ms = 5000

module _ (handlers : Text → Option Handler) (routes : List Route) where
  -- What an event does to the table, and the messages that it makes.
  abbrev pub turn_of : Incoming → List Slot → Turn
  turn_of ev table = turn handlers routes ev.port.kind ev.port ev.accepted ev.stack ev.bytes table

  -- `reactor_thread`: `epoll_wait` after the loop's test, or the end of the thread; an event; a
  -- call of `queue_push`; its return from the wait for room.
  pub data ReactorStep (s t : System) : Type 0 where
    poll :
        (evs : List Incoming)
        → s.reactor ≡ ReactorAt.serving [] []
        → s.threads.waiting ≡ none
        → s.running ≡ true
        → length evs ≤ max_events
        → All IsRead evs
        → t ≡ record s { reactor = ReactorAt.serving evs [] }
        → ReactorStep s t
    quit :
        s.reactor ≡ ReactorAt.serving [] []
        → s.threads.waiting ≡ none
        → s.running ≡ false
        → t ≡ record s { reactor = ReactorAt.left }
        → ReactorStep s t
    event :
        (ev : Incoming) (evs : List Incoming)
        → s.reactor ≡ ReactorAt.serving (ev ∷ evs) []
        → s.threads.waiting ≡ none
        → IsRead ev
        → t ≡ record s {
          table = (turn_of ev s.table).table;
          reactor = ReactorAt.serving evs (turn_of ev s.table).pushed;
          routed = s.routed ++ (turn_of ev s.table).pushed;
        }
        → ReactorStep s t
    push :
        (msg : Event) (msgs : List Event) (evs : List Incoming)
        → s.reactor ≡ ReactorAt.serving evs (msg ∷ msgs)
        → s.threads.waiting ≡ none
        → t ≡ record s {
          threads = settle msg (push_start msg s.threads.queue) s.threads;
          reactor = ReactorAt.serving evs msgs;
        }
        → ReactorStep s t
    wake :
        (timed_out : Bool) (msg : Event)
        → s.threads.waiting ≡ some msg
        → t ≡ record s { threads = settle msg (push_wake timed_out msg s.threads.queue) s.threads }
        → ReactorStep s t

-- `dispatcher_thread`: the loop's test; `queue_pop`; `router_core_handle` with its `port_find` and its
-- `port_send`, where `result` gives what the calls of `write` return.
pub data DispatcherStep (s t : System) : Type 0 where
  enter :
      s.dispatcher ≡ testing
      → s.running ≡ true
      → t ≡ record s { dispatcher = popping }
      → DispatcherStep s t
  quit :
      s.dispatcher ≡ testing
      → s.running ≡ false
      → t ≡ record s { dispatcher = DispatcherAt.left }
      → DispatcherStep s t
  pop :
      (msg : Event) (q : Queue)
      → s.dispatcher ≡ popping
      → pop_start s.threads.queue ≡ some (msg, q)
      → t ≡ record s {
        threads = record s.threads { queue = q; delivered = s.threads.delivered ++ msg ∷ [] };
        dispatcher = holding msg;
      }
      → DispatcherStep s t
  unknown :
      (msg : Event)
      → s.dispatcher ≡ holding msg
      → port_find msg.dst s.table ≡ none
      → t ≡ record s { dispatcher = testing; handled = s.handled ++ msg ∷ [] }
      → DispatcherStep s t
  found :
      (msg : Event) (p : Port)
      → s.dispatcher ≡ holding msg
      → port_find msg.dst s.table ≡ some p
      → t ≡ record s { dispatcher = sending p msg }
      → DispatcherStep s t
  send :
      (msg : Event) (p : Port) (result : ℕ → ℤ)
      → s.dispatcher ≡ sending p msg
      → t ≡ record s {
        writes =
            (port_send p
              (take msg.len msg.bytes)
              s.table
              (record { writes = s.writes; result = result })).1.writes;
        dispatcher = testing;
        handled = s.handled ++ msg ∷ [];
      }
      → DispatcherStep s t

module _ (cjson : Cjson) where
  -- `ipc_thread`: `accept` after the loop's test, or the end of the thread; in `handle_client` a `recv`
  -- after the test, the end of that loop (the run flag, `recv`), a frame, the need for more bytes, the full buffer, a
  -- decode error; and the label `done`.
  pub data IpcStep (s t : System) : Type 0 where
    accept :
        (fd : ℤ)
        → s.ipc ≡ accepting
        → s.running ≡ true
        → t ≡ record s { ipc = receiving fd [] }
        → IpcStep s t
    quit : s.ipc ≡ accepting → s.running ≡ false → t ≡ record s { ipc = IpcAt.left } → IpcStep s t
    recv :
        (fd : ℤ) (buf : List ℕ) (b : ℕ) (bytes : List ℕ)
        → s.ipc ≡ receiving fd buf
        → s.running ≡ true
        → length buf + length (b ∷ bytes) ≤ recv_buf_size
        → t ≡ record s { ipc = draining fd (buf ++ b ∷ bytes) }
        → IpcStep s t
    finish :
        (fd : ℤ) (buf : List ℕ)
        → s.ipc ≡ receiving fd buf
        → t ≡ record s { ipc = leaving fd }
        → IpcStep s t
    framed :
        (fd : ℤ) (buf : List ℕ) (n : ℕ) (hdr : Header) (payload : List ℕ)
        → s.ipc ≡ draining fd buf
        → decode buf ≡ frame n hdr payload
        → t ≡ record s {
          ipc = draining fd (drop n buf);
          world = dispatch cjson fd hdr payload s.world;
        }
        → IpcStep s t
    starved :
        (fd : ℤ) (buf : List ℕ)
        → s.ipc ≡ draining fd buf
        → decode buf ≡ fail incomplete
        → length buf ≢ recv_buf_size
        → t ≡ record s { ipc = receiving fd buf }
        → IpcStep s t
    full :
        (fd : ℤ) (buf : List ℕ)
        → s.ipc ≡ draining fd buf
        → decode buf ≡ fail incomplete
        → length buf ≡ recv_buf_size
        → t ≡ record s { ipc = leaving fd }
        → IpcStep s t
    corrupt :
        (fd : ℤ) (buf : List ℕ) (e : ProtoErr)
        → s.ipc ≡ draining fd buf
        → e ≢ incomplete
        → decode buf ≡ fail e
        → t ≡ record s { ipc = leaving fd }
        → IpcStep s t
    close :
        (fd : ℤ)
        → s.ipc ≡ leaving fd
        → t ≡ record s { ipc = accepting; world = hang_up fd s.world }
        → IpcStep s t

-- `main`: the loop's test; after a second the heartbeat check, at the time of the clock; the end of its loop; and its
-- return, once `pthread_join` has returned for each thread.
pub data MainStep (s t : System) : Type 0 where
  enter : s.main ≡ watching → s.running ≡ true → t ≡ record s { main = sleeping } → MainStep s t
  watch :
      (tv_sec tv_nsec : ℕ)
      → s.main ≡ sleeping
      → t ≡ record s {
        main = watching;
        warned = s.warned + check_heartbeats tv_sec tv_nsec hb_timeout_ms s.world.registry;
      }
      → MainStep s t
  stop : s.main ≡ watching → s.running ≡ false → t ≡ record s { main = joining } → MainStep s t
  join :
      s.main ≡ joining
      → s.reactor ≡ ReactorAt.left
      → s.ipc ≡ IpcAt.left
      → s.dispatcher ≡ DispatcherAt.left
      → t ≡ record s { main = exited }
      → MainStep s t

module _ (cjson : Cjson) (handlers : Text → Option Handler) (routes : List Route) where
  -- A step of a thread, or a signal, which any thread's run may be interrupted by.
  pub data Step (s t : System) : Type 0 where
    reactor : ReactorStep handlers routes s t → Step s t
    dispatcher : DispatcherStep s t → Step s t
    ipc : IpcStep cjson s t → Step s t
    main : MainStep s t → Step s t
    signal : (sig : ℕ) → t ≡ record s { running = run_state_handle_signal sig s.running } → Step s t

  pub data Reach (s : System) : System → Type 0 where
    here : Reach s s
    next : {t u : System} → Reach s t → Step t u → Reach s u
