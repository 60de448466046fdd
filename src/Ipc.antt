-- ===== src/Ipc.antt =====
-- routerd/src/ipc_server.c: the receive loop of one client and the accept loop over clients.
pub mod Server
pub mod Init
pub mod Drain
pub mod Chunks
pub mod Frames
mod Examples
