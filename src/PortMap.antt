-- ===== src/PortMap.antt =====
-- routerd/include/port_map.h and routerd/src/port_map.c: the four fixed ports of the board.
pub mod Table
pub mod Open
mod Examples
