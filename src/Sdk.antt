-- ===== src/Sdk.antt =====
-- sdk/ez_router_sdk.h and sdk/ez_router_sdk.c: the client library and the frames that it sends.
pub mod Frames
pub mod Calls
pub mod Rejected
mod Examples
