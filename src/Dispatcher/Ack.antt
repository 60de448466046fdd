-- ===== src/Dispatcher/Ack.antt =====
-- proto_dispatcher.c: `build_register_ack_payload` and the frame of `send_register_ack`.
use embedded_device_forwarde.Prelude.{
  append-nil, sym, ℕ, ◌+◌, ◌≤◌, ◌<◌, ◌^◌, ◌≡◌, ◌∙◌, ap, List, [], ◌++◌, Bool, true, false, Option,
  none, some, arith, length, take, drop, leb, if◌then◌else◌, le→ltb, length-take, take-append_of_le,
  take-length,
}
use embedded_device_forwarde.Prelude.Text.{Text, codes}
use embedded_device_forwarde.Protocol.Cmd
use embedded_device_forwarde.Protocol.Header.{max_payload, Header, hdr_size}
use embedded_device_forwarde.Protocol.Encode.{
  Encoded, wrote, refused, encode, encode_lem, frame_bytes, fill,
}
use embedded_device_forwarde.Protocol.Decode.{frame, decode}
use embedded_device_forwarde.Protocol.RoundTrip.{decode-frame_bytes}

abbrev pub ack_payload_cap : ℕ
ack_payload_cap = 32

-- What `snprintf(buf, cap, "{\"ok\":%s}", …)` is to write.
abbrev pub ack_text : Bool → Text
ack_text true = codes "{\"ok\":true}"
ack_text false = codes "{\"ok\":false}"

-- `build_register_ack_payload`: a text that does not fit is refused.
build_register_ack_payload : Bool → ℕ → Option Text
build_register_ack_payload ok cap =
    let text = ack_text ok in if leb cap (length text) then none else some text

abbrev pub ack_header : ℕ → ℕ → Header
ack_header seq len = record {
  magic_field = 0;
  version_field = 0;
  cmd = Cmd.register_ack;
  seq = seq;
  payload_len = len;
}

abbrev frame_cap : ℕ
frame_cap = hdr_size + ack_payload_cap

-- The bytes of `frame[0..n)` after `proto_encode`, where it succeeds.
encoded_bytes : Encoded → Option (List ℕ)
encoded_bytes (wrote n out) = some (take n out)
encoded_bytes (refused e) = none

-- The frame that `send_register_ack` sends; `frame` lists what its buffer held before.
unfoldable pub ack_frame : List ℕ → ℕ → Bool → Option (List ℕ)
unfolding build_register_ack_payload encoded_bytes
ack_frame buffer seq ok = elim (build_register_ack_payload ok ack_payload_cap) [
  | none ↦ none
  | some text ↦ encoded_bytes (encode (ack_header seq (length text)) text buffer frame_cap)
]

encode-text :
    (buffer : List ℕ) (seq : ℕ) (text : Text)
    → length text ≤ ack_payload_cap
    → encoded_bytes (encode (ack_header seq (length text)) text buffer frame_cap)
      ≡ some (frame_bytes (ack_header seq (length text)) text)
unfolding encoded_bytes
encode-text buffer seq text small =
    let h : Header = ack_header seq (length text) in
    let n : ℕ = hdr_size + length text in
    let size : length (frame_bytes h text) ≡ n = omega (arith, length-take (length text) text) in
    let e : encode h text buffer frame_cap ≡ wrote n (frame_bytes h text ++ drop n buffer) =
      encode_lem h text buffer frame_cap (omega arith)
      ∙ rw (le→ltb max_payload (length text) (omega arith), le→ltb frame_cap n (omega arith)) in
    ap encoded_bytes e
    ∙ ap some (
        take-append_of_le n (frame_bytes h text) (drop n buffer) (omega arith)
        ∙ take-length n (frame_bytes h text) (omega arith))

decode-text :
    (seq : ℕ) (text : Text)
    → seq < 2 ^ 32
    → length text ≤ ack_payload_cap
    → decode (frame_bytes (ack_header seq (length text)) text)
      ≡ frame (hdr_size + length text) (fill (ack_header seq (length text))) text
decode-text seq text h small =
    let hdr : Header = ack_header seq (length text) in
    ap decode (sym (append-nil (frame_bytes hdr text)))
    ∙ decode-frame_bytes hdr text [] (omega arith) (omega arith) (omega arith)
    ∙ ap (frame (hdr_size + length text) (fill hdr)) (take-length (length text) text (omega arith))

-- `send_register_ack` always has a frame to send, and the client decodes it as an acknowledgement
-- with the sequence number of its request and the text of the result.
pub ack_frame_lem :
    (buffer : List ℕ) (seq : ℕ) (ok : Bool)
    → seq < 2 ^ 32
    → (bytes : List ℕ) × (ack_frame buffer seq ok ≡ some bytes)
      × (decode bytes
          ≡ frame
              (hdr_size + length (ack_text ok))
              (fill (ack_header seq (length (ack_text ok))))
              (ack_text ok))
unfolding ack_frame
ack_frame_lem buffer seq true h = (
  frame_bytes (ack_header seq 11) (ack_text true),
  encode-text buffer seq (ack_text true) (omega arith),
  decode-text seq (ack_text true) h (omega arith),
)
ack_frame_lem buffer seq false h = (
  frame_bytes (ack_header seq 12) (ack_text false),
  encode-text buffer seq (ack_text false) (omega arith),
  decode-text seq (ack_text false) h (omega arith),
)
