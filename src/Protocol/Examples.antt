-- ===== src/Protocol/Examples.antt =====
-- Runs of the codec, and its theorems at concrete frames.
use embedded_device_forwarde.Prelude.{
  ◌≤◌, ◌+◌, ℕ, ◌≡◌, refl, List, [], ◌∷◌, ◌++◌, arith, length, drop, replicate,
}
use embedded_device_forwarde.Prelude.Text.{codes}
use embedded_device_forwarde.Protocol.Cmd
use embedded_device_forwarde.Protocol.Header.{
  Header, InRange, hdr_size, max_payload, bad_magic, incomplete,
}
use embedded_device_forwarde.Protocol.Encode.{encode, wrote, fill, frame_bytes}
use embedded_device_forwarde.Protocol.Decode.{decode, frame, fail}
use embedded_device_forwarde.Protocol.RoundTrip.{decode-encode}
use embedded_device_forwarde.Protocol.Soundness.{decode_sound}
use embedded_device_forwarde.Protocol.Streaming.{Answers, decode-append, decode-Answers}

-- The REGISTER frame of doc/router_protocol.md, section 7.
abbrev register_header : Header
register_header = record {
  magic_field = 0;
  version_field = 0;
  cmd = Cmd.register;
  seq = 1;
  payload_len = 5;
}

abbrev register_wire : List ℕ
register_wire =
    0x7C ∷ 0xEB ∷ 0x01 ∷ 0x01 ∷ 0x01 ∷ 0 ∷ 0 ∷ 0 ∷ 0x05 ∷ 0 ∷ 0 ∷ 0 ∷ 0x7B ∷ 0x41 ∷ 0x42 ∷ 0x43
    ∷ 0x7D ∷ []

abbrev body : List ℕ
body = codes "{ABC}"

frame_bytes-register : frame_bytes register_header body ≡ register_wire
frame_bytes-register = refl

decode-register_wire : decode register_wire ≡ frame 17 (fill register_header) body
unfolding decode
decode-register_wire = refl

decode-short : decode (0x00 ∷ 0x00 ∷ []) ≡ fail incomplete
unfolding decode
decode-short = refl

decode-legacy :
    decode (0x45 ∷ 0x23 ∷ 0xF1 ∷ 0xE7 ∷ 2 ∷ 0 ∷ 0 ∷ 0 ∷ 0 ∷ 0 ∷ 0 ∷ 0 ∷ []) ≡ fail bad_magic
unfolding decode
decode-legacy = refl

decode-encode_example :
    (out' : List ℕ) × (encode register_header body (replicate 20 0xFF) 20 ≡ wrote 17 out')
    × (decode out' ≡ frame 17 (fill register_header) body)
decode-encode_example =
    decode-encode register_header body (replicate 20 0xFF) 20 (omega arith) (omega arith)
      (omega arith) (omega arith)

decode_sound_example :
    (register_wire ≡ frame_bytes (fill register_header) body ++ drop 17 register_wire)
    × (17 ≡ hdr_size + 5)
    × (length body ≡ 5)
    × (5 ≤ max_payload)
    × (fill (fill register_header) ≡ fill register_header)
    × InRange (fill register_header)
decode_sound_example = decode_sound register_wire (omega arith) decode-register_wire

decode-append_example : decode (register_wire ++ 1 ∷ 2 ∷ []) ≡ decode register_wire
unfolding decode
decode-append_example = decode-append register_wire (1 ∷ 2 ∷ []) (λ e. cc e)

decode-Answers_example : Answers register_wire
decode-Answers_example = decode-Answers register_wire
