-- ===== src/Ports.antt =====
-- routerd/src/port_manager.c and routerd/src/router_core.c: the table of open ports, the lookup in
-- it, and the sending of a message to a port.
pub mod Table
pub mod Find
pub mod Add
pub mod Send
pub mod Broadcast
pub mod Line
pub mod Open
pub mod Lifetime
pub mod Router
mod Examples
