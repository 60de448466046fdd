-- ===== src/Ipc/Drain.antt =====
-- The inner loop of `handle_client`: its fuel, its equation, and what it leaves in the buffer.
use embedded_device_forwarde.Prelude.{
  ℕ, zero, suc, ◌≤◌, ◌<◌, ◌≡◌, refl, sym, ◌∙◌, List, arith, length, drop, length-drop,
}
use embedded_device_forwarde.Prelude.Int.{ℤ}
use embedded_device_forwarde.Protocol.Header.{Header, hdr_size, ProtoErr, incomplete}
use embedded_device_forwarde.Protocol.Decode.{Decoded, frame, fail, decode}
use embedded_device_forwarde.Protocol.Soundness.{decode-Frames}
use embedded_device_forwarde.Protocol.Streaming.{decode-Answers}
use embedded_device_forwarde.Ipc.Server.{waiting, stop, drain_fuel, drain, recv_buf_size}

-- To split on the answer of `proto_decode` and keep the equation.
pub data Answer (buf : List ℕ) : Type 0 where
  framed : (n : ℕ) (h : Header) (payload : List ℕ) → decode buf ≡ frame n h payload → Answer buf
  failing : (e : ProtoErr) → decode buf ≡ fail e → Answer buf

classify : (buf : List ℕ) (d : Decoded) → decode buf ≡ d → Answer buf
classify buf (frame n h payload) e = framed n h payload e
classify buf (fail err) e = failing err e

pub answer : (buf : List ℕ) → Answer buf
answer buf = classify buf (decode buf) refl

-- A decoded frame is not empty and lies within the buffer.
pub frame_size :
    (buf : List ℕ) {n : ℕ} {h : Header} {payload : List ℕ}
    → decode buf ≡ frame n h payload
    → (hdr_size ≤ n) × (n ≤ length buf)
frame_size buf e = let f = decode-Frames buf e in (omega (arith, f.total), f.within)

-- What waits for more bytes is shorter than the largest frame.
pub incomplete-lt : (buf : List ℕ) → decode buf ≡ fail incomplete → length buf < recv_buf_size
incomplete-lt buf e = ground (arith, (decode-Answers buf).if_incomplete.0 e)

module _ {ℓ} {W : Type ℓ} (dispatch : ℤ → Header → List ℕ → W → W) where
  drain_fuel-frame :
      (fuel : ℕ) (fd : ℤ) (buf : List ℕ) (w : W) {n : ℕ} {h : Header} {payload : List ℕ}
      → decode buf ≡ frame n h payload
      → drain_fuel dispatch (suc fuel) fd buf w
        ≡ drain_fuel dispatch fuel fd (drop n buf) (dispatch fd h payload w)
  unfolding drain_fuel
  drain_fuel-frame fuel fd buf w e = rw (e, drain_fuel)

  drain_fuel-fail :
      (fuel : ℕ) (fd : ℤ) (buf : List ℕ) (w : W) {err : ProtoErr}
      → decode buf ≡ fail err
      → drain_fuel dispatch (suc fuel) fd buf w ≡ stop err buf w
  unfolding drain_fuel
  drain_fuel-fail fuel fd buf w e = rw (e, drain_fuel)

  -- More fuel than bytes: the fuel does not matter.
  drain_fuel-enough :
      (f g : ℕ) (fd : ℤ) (buf : List ℕ) (w : W)
      → length buf < f
      → length buf < g
      → drain_fuel dispatch f fd buf w ≡ drain_fuel dispatch g fd buf w
  drain_fuel-enough zero g fd buf w hf hg = absurd (omega arith)
  drain_fuel-enough (suc f) zero fd buf w hf hg = absurd (omega arith)
  drain_fuel-enough (suc f) (suc g) fd buf w hf hg = elim (answer buf) [
    | framed n h payload e ↦
        let s = frame_size buf e in
        drain_fuel-frame f fd buf w e
        ∙ drain_fuel-enough f g fd (drop n buf) (dispatch fd h payload w)
            (omega (arith, length-drop n buf, s.0, s.1))
            (omega (arith, length-drop n buf, s.0, s.1))
        ∙ sym (drain_fuel-frame g fd buf w e)
    | failing err e ↦ drain_fuel-fail f fd buf w e ∙ sym (drain_fuel-fail g fd buf w e)
  ]

  pub drain-frame :
      (fd : ℤ) (buf : List ℕ) (w : W) {n : ℕ} {h : Header} {payload : List ℕ}
      → decode buf ≡ frame n h payload
      → drain dispatch fd buf w ≡ drain dispatch fd (drop n buf) (dispatch fd h payload w)
  unfolding drain
  drain-frame fd buf w {n} {h} {payload} e =
      let s = frame_size buf e in
      drain_fuel-frame (length buf) fd buf w e
      ∙ drain_fuel-enough (length buf) (suc (length (drop n buf))) fd (drop n buf)
          (dispatch fd h payload w) (omega (arith, length-drop n buf, s.0, s.1)) (omega arith)

  pub drain-fail :
      (fd : ℤ) (buf : List ℕ) (w : W) {err : ProtoErr}
      → decode buf ≡ fail err
      → drain dispatch fd buf w ≡ stop err buf w
  unfolding drain
  drain-fail fd buf w e = drain_fuel-fail (length buf) fd buf w e

  -- The inner loop of `handle_client` always ends: it behaves as the loop itself, with no bound on
  -- its turns. A frame is dispatched and taken off the buffer; an incomplete frame keeps the
  -- buffer for the next `recv`; any other error ends the connection.
  pub drain_lem :
      (fd : ℤ) (buf : List ℕ) (w : W)
      → drain dispatch fd buf w ≡ elim (decode buf) [
        | frame n h payload ↦ drain dispatch fd (drop n buf) (dispatch fd h payload w)
        | fail e ↦ stop e buf w
      ]
  drain_lem fd buf w = elim (answer buf) [
    | framed n h payload e ↦ rw e (drain-frame fd buf w e)
    | failing err e ↦ rw e (drain-fail fd buf w e)
  ]

  stop-incomplete :
      (err : ProtoErr) (buf rest : List ℕ) (w w' : W)
      → decode buf ≡ fail err
      → stop err buf w ≡ waiting rest w'
      → decode rest ≡ fail incomplete
  stop-incomplete incomplete buf rest w w' e k = ground (arith, e, k)
  stop-incomplete _ buf rest w w' e k = cc

  drain-incomplete_below :
      (k : ℕ) (fd : ℤ) (buf rest : List ℕ) (w w' : W)
      → length buf < k
      → drain dispatch fd buf w ≡ waiting rest w'
      → decode rest ≡ fail incomplete
  drain-incomplete_below zero fd buf rest w w' lt e = absurd (omega arith)
  drain-incomplete_below (suc k) fd buf rest w w' lt e = elim (answer buf) [
    | framed n h payload d ↦
        let s = frame_size buf d in
        drain-incomplete_below k fd (drop n buf) rest (dispatch fd h payload w) w'
          (omega (arith, length-drop n buf, s.0, s.1)) (sym (drain-frame fd buf w d) ∙ e)
    | failing err d ↦ stop-incomplete err buf rest w w' d (sym (drain-fail fd buf w d) ∙ e)
  ]

  -- What the inner loop leaves in the buffer is an incomplete frame.
  pub drain-incomplete :
      (fd : ℤ) (buf rest : List ℕ) (w w' : W)
      → drain dispatch fd buf w ≡ waiting rest w'
      → decode rest ≡ fail incomplete
  drain-incomplete fd buf rest w w' =
      drain-incomplete_below (suc (length buf)) fd buf rest w w' (omega arith)
