-- ===== src/EventQueue.antt =====
-- routerd/include/event.h, routerd/include/event_queue.h and routerd/src/event_queue.c: the ring of
-- messages between the reactor thread, which pushes, and the dispatcher thread, which pops.
pub mod Ring
pub mod Deadline
pub mod Fifo
pub mod Threads
pub mod Observe
mod Examples
