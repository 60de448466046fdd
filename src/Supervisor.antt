-- ===== src/Supervisor.antt =====
-- routerd/include/supervisor.h and routerd/src/supervisor.c: the child table and the heartbeat
-- check over the registry.
pub mod Children
pub mod Spawn
pub mod Heartbeat
mod Examples
