-- ===== src/Protocol/Encode.antt =====
-- proto_codec.c: `proto_encode`. The buffer that it writes is returned beside the byte count.
use embedded_device_forwarde.Prelude.{
  sym, tests, Bool-cases, inl, inr, ℕ, zero, suc, ◌+◌, ◌≤◌, ◌≡◌, refl, ◌∙◌, ap, List, [], ◌∷◌, ◌++◌,
  append_assoc, arith, length, take, drop, ltb, if◌then◌else◌, length-take, drop-drop,
}
use embedded_device_forwarde.Protocol.Header.{
  Header, magic, version, max_payload, hdr_size, ProtoErr, buf_too_small, payload_too_large,
  header_bytes,
}

-- `memcpy(dst + off, src, n)`, where `src` lists the n bytes.
pub write_at : List ℕ → ℕ → List ℕ → List ℕ
write_at dst off src = take off dst ++ (src ++ drop (off + length src) dst)

pub data Encoded : Type 0 where
  wrote : ℕ → List ℕ → Encoded
  refused : ProtoErr → Encoded

-- The header that is sent: magic and version are filled in, whatever the caller left there.
abbrev pub fill : Header → Header
fill h = record h { magic_field = magic; version_field = version }

write_frame : Header → List ℕ → List ℕ → List ℕ
unfolding write_at
write_frame h payload out =
    let out' = write_at out 0 (header_bytes (fill h)) in
    if ltb 0 h.payload_len then write_at out' hdr_size (take h.payload_len payload) else out'

pub encode : Header → List ℕ → List ℕ → ℕ → Encoded
unfolding write_frame
encode h payload out out_cap =
    let need = hdr_size + h.payload_len in
    if ltb max_payload h.payload_len
    then refused payload_too_large
    else if ltb out_cap need
    then refused buf_too_small
    else wrote need (write_frame h payload out)

-- The bytes of a frame, as the protocol lays them out.
abbrev pub frame_bytes : Header → List ℕ → List ℕ
frame_bytes h payload = header_bytes (fill h) ++ take h.payload_len payload

write_at-zero : (out src : List ℕ) → write_at out 0 src ≡ src ++ drop (length src) out
unfolding write_at
write_at-zero out src = let k : 0 + length src ≡ length src = omega arith in rw k

write_at-prefix :
    (pre rest src : List ℕ) (n : ℕ)
    → length pre ≡ n
    → write_at (pre ++ rest) n src ≡ pre ++ (src ++ drop (length src) rest)
unfolding write_at
write_at-prefix [] rest src zero e = write_at-zero rest src
write_at-prefix [] rest src (suc n) e = absurd (omega arith)
write_at-prefix (x ∷ pre) rest src zero e = absurd (omega arith)
write_at-prefix (x ∷ pre) rest src (suc n) e =
    let k : suc n + length src ≡ suc (n + length src) = omega arith in
    rw k (ap (λ l. x ∷ l) (write_at-prefix pre rest src n (omega arith)))

two_writes :
    (hdr body out : List ℕ)
    → length hdr ≡ hdr_size
    → write_at (write_at out 0 hdr) hdr_size body ≡ hdr ++ body ++ drop (hdr_size + length body) out
two_writes hdr body out e = rw write_at-zero (
    write_at-prefix hdr (drop (length hdr) out) body hdr_size e
    ∙ rw (e, drop-drop (length body) hdr_size out) (sym (append_assoc hdr body _)))

write_frame_lem :
    (h : Header) (payload out : List ℕ)
    → h.payload_len ≤ length payload
    → write_frame h payload out ≡ frame_bytes h payload ++ drop (hdr_size + h.payload_len) out
unfolding write_frame
write_frame_lem h payload out have = elim (Bool-cases (ltb 0 h.payload_len)) [
  | inl some_payload ↦
      rw (some_payload, two_writes (header_bytes (fill h)) (take h.payload_len payload) out refl)
        (let e : length (take h.payload_len payload) ≡ h.payload_len =
            omega (arith, length-take h.payload_len payload) in
          rw e)
  | inr no_payload ↦
      let e : h.payload_len ≡ 0 = omega tests in rw (no_payload, write_at-zero) (rw e)
]

-- `proto_encode` succeeds exactly where the payload is within the limit and the frame fits the
-- buffer; it then returns the frame's size, the buffer starts with the frame, and no byte behind
-- it is changed. Otherwise the error says which of the two failed, the payload limit first.
pub encode_lem :
    (h : Header) (payload out : List ℕ) (out_cap : ℕ)
    → h.payload_len ≤ length payload
    → encode h payload out out_cap ≡ (
        if ltb max_payload h.payload_len
        then refused payload_too_large
        else if ltb out_cap (hdr_size + h.payload_len)
        then refused buf_too_small
        else wrote
            (hdr_size + h.payload_len)
            (frame_bytes h payload ++ drop (hdr_size + h.payload_len) out))
unfolding encode
encode_lem h payload out out_cap have = rw (write_frame_lem h payload out have)
