-- ===== src/Protocol/RoundTrip.antt =====
-- What `proto_decode` reads of a frame that `proto_encode` wrote.
use embedded_device_forwarde.Prelude.{
  ℕ, ◌+◌, ◌≤◌, ◌≡◌, refl, ◌∙◌, ap, List, ◌++◌, arith, length, take, drop, le→ltb, length-append,
  length-take, take-append_of_le, take-length,
}
use embedded_device_forwarde.Protocol.Header.{
  Header, InRange, max_payload, hdr_size, read_header-append,
}
use embedded_device_forwarde.Protocol.Encode.{wrote, fill, encode, encode_lem, frame_bytes}
use embedded_device_forwarde.Protocol.Decode.{frame, decode_of_header, check_header-frame, decode}

fill-InRange : (h : Header) → InRange h → InRange (fill h)
fill-InRange h v = omega arith

take_payload :
    (h : Header) (payload rest : List ℕ)
    → h.payload_len ≤ length payload
    → take h.payload_len (take h.payload_len payload ++ rest) ≡ take h.payload_len payload
take_payload h payload rest have =
    let e : length (take h.payload_len payload) ≡ h.payload_len =
      omega (arith, length-take h.payload_len payload) in
    take-append_of_le h.payload_len (take h.payload_len payload) rest (omega arith)
    ∙ take-length h.payload_len (take h.payload_len payload) (omega arith)

-- A well-formed frame, with its magic and version, decodes to its header and payload, whatever
-- follows it in the buffer.
pub decode-frame_bytes :
    (h : Header) (payload rest : List ℕ)
    → InRange h
    → h.payload_len ≤ max_payload
    → h.payload_len ≤ length payload
    → decode (frame_bytes h payload ++ rest)
      ≡ frame (hdr_size + h.payload_len) (fill h) (take h.payload_len payload)
decode-frame_bytes h payload rest v small have =
    decode_of_header (frame_bytes h payload ++ rest) (fill h) (omega arith)
      (read_header-append (fill h) (take h.payload_len payload ++ rest) (fill-InRange h v))
    ∙ check_header-frame (fill h) _ (frame_bytes h payload ++ rest) refl refl small (
        omega (
          arith,
          length-append (take h.payload_len payload) rest,
          length-take h.payload_len payload,
        ))
    ∙ ap (frame (hdr_size + h.payload_len) (fill h)) (take_payload h payload rest have)

-- The bytes that `proto_encode` writes into a buffer decode to what was encoded.
pub decode-encode :
    (h : Header) (payload out : List ℕ) (out_cap : ℕ)
    → InRange h
    → h.payload_len ≤ max_payload
    → h.payload_len ≤ length payload
    → hdr_size + h.payload_len ≤ out_cap
    → (out' : List ℕ) × (encode h payload out out_cap ≡ wrote (hdr_size + h.payload_len) out')
      × (decode out' ≡ frame (hdr_size + h.payload_len) (fill h) (take h.payload_len payload))
decode-encode h payload out out_cap v small have fits = (
  frame_bytes h payload ++ drop (hdr_size + h.payload_len) out,
  encode_lem h payload out out_cap have
      ∙ rw (le→ltb max_payload h.payload_len small, le→ltb out_cap (hdr_size + h.payload_len) fits),
  decode-frame_bytes h payload (drop (hdr_size + h.payload_len) out) v small have,
)
