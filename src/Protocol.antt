-- ===== src/Protocol.antt =====
-- routerd/include/protocol.h and routerd/src/proto_codec.c: the frame header and its codec.
-- A byte is a number below 256, a buffer the list of its bytes. The header is copied by `memcpy`
-- of a packed struct on a little-endian host, which `header_bytes` and `read_header` write out.
pub mod Cmd
pub mod Header
pub mod Encode
pub mod Decode
pub mod RoundTrip
pub mod Soundness
pub mod Streaming
mod Examples
