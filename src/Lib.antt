-- ===== src/Lib.antt =====
-- ez_router: a daemon that forwards data between the ports of an embedded board, and that keeps a
-- registry of subprograms which report to it over a Unix socket. This library models the daemon's C
-- code as functions on explicit state, and proves what makes each part correct.
--
-- The parts, the source that each file models, and how they meet:
--
-- Protocol        routerd/include/protocol.h, routerd/src/proto_codec.c. Header has the constants and
--                 the header as a value and as bytes, Encode and Decode have proto_encode and
--                 proto_decode, RoundTrip, Soundness and Streaming their proofs.
-- Ipc             routerd/src/ipc_server.c. Init has ipc_server_init, Server handle_client and ipc_thread
--                 over any dispatcher; Drain, Chunks and Frames prove the receive loop.
-- Registry        routerd/include/registry.h, routerd/src/registry.c. Entry, Parse and Table have the
--                 entry, parse_register_json and the operations, Clock registry_now_ms; Clients says what a map of
--                 clients replies; Invariant, Lookup, Register, Owner, Counted and Refines the proofs.
-- Dispatcher      routerd/src/proto_dispatcher.c. Send, Ack and Dispatch have send_nonblock_retry, the
--                 acknowledgement and proto_dispatch; Sent says when bytes are left unsent, Effects
--                 proves what a frame does, Connection joins dispatcher, registry and receive loop.
-- EventQueue      routerd/include/event.h, routerd/src/event_queue.c. Ring has the critical sections of
--                 queue_push and queue_pop, Deadline the time at which a push
--                 gives up; Fifo and Observe prove the refinement, Threads the interleavings.
-- Supervisor      routerd/include/supervisor.h, routerd/src/supervisor.c. Children has the child table
--                 and supervisor_spawn, Spawn its outcome, Heartbeat the check over the registry.
-- Config          routerd/include/config_store.h, routerd/src/config_store.c. Types has the tables (the enums
--                 parity_t and flow_t are unsigned, as GCC has them), Parse
--                 load_config, Print save_config, Dump config_print, Lookup and Find the searches (Find also those of
--                 port_manager.c); Bounds has the sizes, Reload says what is left after
--                 saving and loading, Fields, Settings and RoundTrip prove it; Listing reads what
--                 config_print shows.
-- Ports           routerd/src/port_manager.c, routerd/src/router_core.c. Table has g_port_table, port_find
--                 and reactor_add_port, Send port_send and the broadcast, Router router_core_handle,
--                 Open the opening and closing over the results of the system calls, Line the settings
--                 of a serial line; Find, Add, Broadcast and Lifetime the proofs.
-- Reactor         routerd/src/reactor.c. Route has the forwarding of a packet to the queue, Turn one
--                 event of epoll, Loop the loop over them, Fds the array reactor_fds; Bounds, Forward,
--                 Accept and Session (a connection from its start to its end) the proofs. Memory has
--                 the events on addresses, with calloc and free; below it Update, Slots, Erase (the
--                 view without addresses), Invariant, Events, Start, Safety, Run,
--                 Objects and Freed the proofs.
-- Plugins         routerd/src/plugin_loader.c, plugins/filter.c. Table has the handlers by name, Filter the
--                 two example handlers and their registration, Load plugin_load and main's loop over the
--                 plugins; Keep says that handlers write within the buffer, Forwarded what the example
--                 handlers make of a packet.
-- PortMap         routerd/include/port_map.h, routerd/src/port_map.c. Table has the four fixed ports and the
--                 operations on them, Open the proofs.
-- Sdk             sdk/ez_router_sdk.h, sdk/ez_router_sdk.c. Frames has the header and the payloads, Calls
--                 the calls with the bytes that they send; Rejected joins them with the daemon's loop.
-- Main            routerd/src/ez_router.c, routerd/src/log.c, routerd/src/run_state.c. Log has the switches
--                 and the arguments, Startup the start up to the threads, Dispatcher the dispatcher thread;
--                 Filled proves what the start leaves, EndToEnd joins reactor, queue and dispatcher.
-- Daemon          routerd/src/ez_router.c with the loops of reactor.c and ipc_server.c: the four threads
--                 over what they share. System has the state and the places of the threads, Steps what each
--                 can do next, Parts what each leaves alone; Thinned, Account and Delivery (messages), Safety
--                 (bounds), Clients (the registry), Shutdown (what can follow SIGTERM), Ending and Progress
--                 (that the end can be reached), Orderly and Exit (what it leaves) the proofs.
-- Json            routerd/3rdparty/cjson as a parameter: what reads a document, and in Build what makes one
--                 with its documented laws; Doc, Postfix and Toy are values of it for the examples.
--
-- Conventions. A byte is a number below 256 and a buffer the list of its valid bytes; a C string is
-- the list of its bytes before the NUL; an `int` that is compared or tested for its sign is an
-- integer of Prelude/Int; a result 0 or -1 keeps that value. Packed headers are written out in
-- little-endian order, as the source's `memcpy` on its target does. A function that changes a
-- static variable takes the old state and returns the new one; a mutex makes each critical section
-- one such function. Results of system calls (recv, accept, read, write, send, fork, the clock,
-- wake-ups of a wait) come in as arguments: lists of events, a script, or a function of a counter.
-- cJSON is the parameter Json.Cjson where it reads and the records of Json.Build, with the laws of
-- its documentation, where it makes a document. open, bind and connect give the descriptor or the
-- failure as an argument. A plugin's handler is a function from the buffer and the length to the
-- rewritten buffer and the result. The port that an entry of g_port_table points to is held by
-- value, but in Reactor/Memory, which has the pointers and what they point to; there calloc always
-- gives memory. Reactor, Main and Daemon compute with ports as values, so what they say is of runs
-- without the faults that Reactor/Memory finds.
--
-- Bounds and fuel. The only fuel is that of Ipc.Server.drain: one turn more than the buffer has
-- bytes, which is enough since each frame takes at least twelve bytes off. All other loops recur on
-- a list or on a script of what the environment answers; the number given to the dispatcher thread
-- is how often it finds the run flag set, which is no approximation.
--
-- A step of a thread in Daemon goes up to its next access to what the threads share. The source has
-- no lock around g_port_table: a search in it, an entry and a removal are taken as one step each.
--
-- Not modelled: time stamps and log lines (but for those of config_print, and the branch that logs,
-- where it is all that a branch does), when a timed wait ends (a choice of the environment; its
-- deadline is computed in EventQueue/Deadline), a system call that is interrupted without end, what
-- pthread_create does (the initial state of Daemon has its threads running), the addresses of the
-- sockets, a configuration file that cannot be opened for writing, what two threads do to
-- g_port_table in the middle of a search, and routerd/src/router_link.c, whose functions are all
-- commented out.
pub mod Prelude
pub mod Protocol
pub mod Ipc
pub mod Json
pub mod Registry
pub mod Dispatcher
pub mod EventQueue
pub mod Supervisor
pub mod Config
pub mod Ports
pub mod Reactor
pub mod Plugins
pub mod PortMap
pub mod Sdk
pub mod Main
pub mod Daemon
