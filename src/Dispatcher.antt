-- ===== src/Dispatcher.antt =====
-- routerd/src/proto_dispatcher.c: what a decoded frame does, and the acknowledgement of REGISTER.
pub mod Send
pub mod Sent
pub mod Ack
pub mod Dispatch
pub mod Effects
pub mod Connection
mod Examples
