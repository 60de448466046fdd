-- ===== src/Daemon.antt =====
-- The daemon as a whole: the threads of routerd/src/ez_router.c over the state that they share.
pub mod System
pub mod Steps
pub mod Parts
pub mod Thinned
pub mod Account
pub mod Delivery
pub mod Safety
pub mod Clients
pub mod Shutdown
pub mod Orderly
pub mod Exit
pub mod Ending
pub mod Progress
mod Examples
