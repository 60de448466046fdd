-- ===== src/Main.antt =====
-- routerd/src/ez_router.c with run_state.c and log.c: the start of the daemon, its dispatcher
-- thread, and the switches that they read.
pub mod Log
pub mod Startup
pub mod Filled
pub mod Dispatcher
pub mod EndToEnd
mod Examples
