-- ===== src/Reactor.antt =====
-- routerd/src/reactor.c: what the reactor does with a packet that it has read.
pub mod Route
pub mod Bounds
pub mod Forward
pub mod Turn
pub mod Accept
pub mod Fds
pub mod Loop
pub mod Session
pub mod Memory
mod Examples
