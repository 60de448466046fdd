-- ===== src/Protocol/Decode.antt =====
-- proto_codec.c: `proto_decode`. The `in_len` readable bytes are the whole list; the payload that
-- `payload_out` points to is the list of its `payload_len` bytes.
use embedded_device_forwarde.Prelude.{
  ap, ◌≤◌, ◌≡◌, arith, le→ltb, ℕ, ◌+◌, List, length, take, drop, ltb, ◌==◌, not, if◌then◌else◌,
}
use embedded_device_forwarde.Protocol.Header.{
  Header, magic, version, max_payload, hdr_size, ProtoErr, bad_magic, bad_version,
  payload_too_large, incomplete, read_header,
}

pub data Decoded : Type 0 where
  frame : ℕ → Header → List ℕ → Decoded
  fail : ProtoErr → Decoded

-- The tests on a header that has been read, in the order of the code.
unfoldable pub check_header : Header → ℕ → List ℕ → Decoded
check_header h in_len in_buf =
    let total = hdr_size + h.payload_len in
    if not (h.magic_field == magic)
    then fail bad_magic
    else if not (h.version_field == version)
    then fail bad_version
    else if ltb max_payload h.payload_len
    then fail payload_too_large
    else if ltb in_len total
    then fail incomplete
    else frame total h (take h.payload_len (drop hdr_size in_buf))

unfoldable pub decode : List ℕ → Decoded
unfolding check_header
decode in_buf =
    if ltb (length in_buf) hdr_size
    then fail incomplete
    else check_header (read_header in_buf) (length in_buf) in_buf

-- Once twelve bytes are there, the answer is that of the tests on the header.
pub decode_of_header :
    (buf : List ℕ) (h : Header)
    → hdr_size ≤ length buf
    → read_header buf ≡ h
    → decode buf ≡ check_header h (length buf) buf
unfolding decode
decode_of_header buf h long e =
    rw (le→ltb (length buf) hdr_size long) (ap (λ k. check_header k (length buf) buf) e)

-- A header that passes the tests, with its payload there.
pub check_header-frame :
    (h : Header) (n : ℕ) (buf : List ℕ)
    → h.magic_field ≡ magic
    → h.version_field ≡ version
    → h.payload_len ≤ max_payload
    → hdr_size + h.payload_len ≤ n
    → check_header h n buf
      ≡ frame (hdr_size + h.payload_len) h (take h.payload_len (drop hdr_size buf))
unfolding check_header
check_header-frame h n buf m v small long = ground arith
