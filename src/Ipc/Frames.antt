-- ===== src/Ipc/Frames.antt =====
-- What a stream of well-formed frames, and the legacy SDK's frames, do to a connection.
use embedded_device_forwarde.Prelude.{
  take-length, ℕ, zero, suc, ◌+◌, ◌≤◌, ◌≡◌, refl, ◌∙◌, ap, List, [], ◌∷◌, ◌++◌, arith, length, drop,
  append_assoc, All, length-take,
}
use embedded_device_forwarde.Prelude.Int.{ℤ}
use embedded_device_forwarde.Protocol.Header.{Header, InRange, hdr_size, max_payload, incomplete}
use embedded_device_forwarde.Protocol.Encode.{fill, frame_bytes}
use embedded_device_forwarde.Protocol.Decode.{frame, fail, decode}
use embedded_device_forwarde.Protocol.RoundTrip.{decode-frame_bytes}
use embedded_device_forwarde.Ipc.Server.{Round, still_open, waiting, drain, handle_client}
use embedded_device_forwarde.Ipc.Drain.{drain-frame, drain-fail}
use embedded_device_forwarde.Ipc.Chunks.{Delivers, arrived, settle, handle_client-arrived}

-- A frame to send: a header and the bytes of its payload.
pub record Message : Type 0 where
  pub header : Header
  pub body : List ℕ

-- A message that `proto_encode` accepts, given a buffer that is large enough.
pub record IsSendable (m : Message) : Type 0 where
  pub in_range : InRange m.header
  pub small : m.header.payload_len ≤ max_payload
  pub whole : m.header.payload_len ≡ length m.body

-- The bytes of the messages, one after the other.
unfoldable pub wire : List Message → List ℕ
wire [] = []
wire (m ∷ ms) = frame_bytes m.header m.body ++ wire ms

drop-append_length {ℓ} :
    {A : Type ℓ} (n : ℕ) (xs ys : List A) → length xs ≡ n → drop n (xs ++ ys) ≡ ys
drop-append_length zero [] ys e = refl
drop-append_length zero (x ∷ xs) ys e = absurd (omega arith)
drop-append_length (suc n) [] ys e = absurd (omega arith)
drop-append_length (suc n) (x ∷ xs) ys e = drop-append_length n xs ys (omega arith)

length-frame_bytes :
    (m : Message)
    → IsSendable m
    → length (frame_bytes m.header m.body) ≡ hdr_size + m.header.payload_len
length-frame_bytes m ok = omega (arith, length-take m.header.payload_len m.body, ok.whole)

decode-Message :
    (m : Message) (more : List ℕ)
    → IsSendable m
    → decode (frame_bytes m.header m.body ++ more)
      ≡ frame (hdr_size + m.header.payload_len) (fill m.header) m.body
decode-Message m more ok =
    decode-frame_bytes m.header m.body more ok.in_range ok.small (omega (arith, ok.whole))
    ∙ ap (frame (hdr_size + m.header.payload_len) (fill m.header))
        (take-length m.header.payload_len m.body (omega (arith, ok.whole)))

module _ {ℓ} {W : Type ℓ} (dispatch : ℤ → Header → List ℕ → W → W) where
  -- The messages handed to `proto_dispatch`, in order.
  unfoldable pub deliver : ℤ → List Message → W → W
  deliver fd [] w = w
  deliver fd (m ∷ ms) w = deliver fd ms (dispatch fd (fill m.header) m.body w)

  drain-wire :
      (fd : ℤ) (ms : List Message) (rest : List ℕ) (w : W)
      → All IsSendable ms
      → decode rest ≡ fail incomplete
      → drain dispatch fd (wire ms ++ rest) w ≡ waiting rest (deliver fd ms w)
  unfolding wire deliver
  drain-wire fd [] rest w ok short = drain-fail dispatch fd rest w short
  drain-wire fd (m ∷ ms) rest w ok short =
      ap (λ l. drain dispatch fd l w) (append_assoc (frame_bytes m.header m.body) (wire ms) rest)
      ∙ drain-frame dispatch fd (frame_bytes m.header m.body ++ (wire ms ++ rest)) w
          (decode-Message m (wire ms ++ rest) ok.0)
      ∙ ap (λ l. drain dispatch fd l (dispatch fd (fill m.header) m.body w))
          (drop-append_length (hdr_size + m.header.payload_len) (frame_bytes m.header m.body)
            (wire ms ++ rest) (length-frame_bytes m ok.0))
      ∙ drain-wire fd ms rest (dispatch fd (fill m.header) m.body w) ok.1 short

module _ {ℓ} {W : Type ℓ} (dispatch : ℤ → Header → List ℕ → W → W) (hang_up : ℤ → W → W) where
  -- Frames arrive whole and in order: if the bytes of a client are those of some well-formed
  -- frames, followed by an unfinished one, then however they are cut into chunks, each frame is
  -- dispatched once, in order, with its header and its whole payload; the connection stays open
  -- and keeps the unfinished bytes.
  pub handle_client-wire :
      (fd : ℤ) (ms : List Message) (rest : List ℕ) (rounds : List Round) (w : W)
      → All IsSendable ms
      → decode rest ≡ fail incomplete
      → All Delivers rounds
      → arrived rounds ≡ wire ms ++ rest
      → handle_client dispatch hang_up fd [] rounds w ≡ still_open rest (deliver dispatch fd ms w)
  handle_client-wire fd ms rest rounds w ok short live e =
      handle_client-arrived dispatch hang_up fd rounds w live
      ∙ ap (λ l. settle dispatch hang_up fd (drain dispatch fd l w)) e
      ∙ ap (settle dispatch hang_up fd) (drain-wire dispatch fd ms rest w ok short)
