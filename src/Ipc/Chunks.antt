-- ===== src/Ipc/Chunks.antt =====
-- `handle_client` and the cuts that `recv` makes: what they change, and the room in the buffer.
use embedded_device_forwarde.Prelude.{
  false, append_assoc, ◌==◌, [], ◌∷◌, All, append-nil, subst, ℕ, zero, suc, ◌<◌, ◌≡◌, ◌≢◌, refl,
  sym, ◌∙◌, ap, List, ◌++◌, arith, length, drop, length-drop, drop-append_of_le,
}
use embedded_device_forwarde.Prelude.Int.{ℤ}
use embedded_device_forwarde.Protocol.Header.{Header, ProtoErr, incomplete}
use embedded_device_forwarde.Protocol.Decode.{fail, decode}
use embedded_device_forwarde.Protocol.Streaming.{decode-append}
use embedded_device_forwarde.Ipc.Server.{
  corrupt, Round, received, stopped, interrupted, failed, handle_client, Drained, waiting, broken,
  stop, drain, recv_buf_size, Session, still_open, closed, buffer_full,
}
use embedded_device_forwarde.Ipc.Drain.{
  drain-incomplete, incomplete-lt, answer, framed, failing, frame_size, drain-frame, drain-fail,
}

-- A turn that brings at least one byte, or is only interrupted.
abbrev pub Delivers : Round → Type 0
Delivers stopped = ⊥
Delivers interrupted = Unit {0}
Delivers failed = ⊥
Delivers (received []) = ⊥
Delivers (received (b ∷ bytes)) = Unit {0}

-- The bytes that the turns bring.
abbrev pub arrived : List Round → List ℕ
arrived [] = []
arrived (received bytes ∷ rounds) = bytes ++ arrived rounds
arrived (_ ∷ rounds) = arrived rounds

-- The loop ended in a state from which another `recv` has room for at least one byte, and not
-- because the buffer was full.
abbrev pub HasRoom {ℓ} : {W : Type ℓ} → Session W → Type 0
HasRoom (still_open buf w) = length buf < recv_buf_size
HasRoom (closed e w) = e ≢ buffer_full

module _ {ℓ} {W : Type ℓ} (dispatch : ℤ → Header → List ℕ → W → W) where
  -- The inner loop, gone on with after more bytes have come in.
  abbrev pub resume : ℤ → Drained W → List ℕ → Drained W
  resume fd (waiting rest w) more = drain dispatch fd (rest ++ more) w
  resume fd (broken e w) more = broken e w

  stop-append :
      (fd : ℤ) (err : ProtoErr) (buf more : List ℕ) (w : W)
      → decode buf ≡ fail err
      → drain dispatch fd (buf ++ more) w ≡ resume fd (stop err buf w) more
  stop-append fd incomplete buf more w e = refl
  stop-append fd err buf more w e =
      drain-fail dispatch fd (buf ++ more) w (decode-append buf more (λ k. cc) ∙ e)

  drain-append_below :
      (k : ℕ) (fd : ℤ) (buf more : List ℕ) (w : W)
      → length buf < k
      → drain dispatch fd (buf ++ more) w ≡ resume fd (drain dispatch fd buf w) more
  drain-append_below zero fd buf more w lt = absurd (omega arith)
  drain-append_below (suc k) fd buf more w lt = elim (answer buf) [
    | framed n h payload d ↦
        let s = frame_size buf d in
        drain-frame dispatch fd (buf ++ more) w (decode-append buf more (λ e. cc) ∙ d)
        ∙ ap (λ l. drain dispatch fd l (dispatch fd h payload w)) (drop-append_of_le n buf more s.1)
        ∙ drain-append_below k fd (drop n buf) more (dispatch fd h payload w)
            (omega (arith, length-drop n buf, s.0, s.1))
        ∙ ap (λ r. resume fd r more) (sym (drain-frame dispatch fd buf w d))
    | failing err d ↦
        stop-append fd err buf more w d
        ∙ ap (λ r. resume fd r more) (sym (drain-fail dispatch fd buf w d))
  ]

  -- Draining a buffer and then going on with more bytes is draining both at once.
  pub drain-append :
      (fd : ℤ) (buf more : List ℕ) (w : W)
      → drain dispatch fd (buf ++ more) w ≡ resume fd (drain dispatch fd buf w) more
  drain-append fd buf more w = drain-append_below (suc (length buf)) fd buf more w (omega arith)

module _ {ℓ} {W : Type ℓ} (dispatch : ℤ → Header → List ℕ → W → W) (hang_up : ℤ → W → W) where
  -- A turn that receives bytes, once the inner loop has been run.
  abbrev pub after_drain : ℤ → Drained W → List Round → Session W
  after_drain fd (broken e w) rounds = closed (corrupt e) (hang_up fd w)
  after_drain fd (waiting rest w) rounds = handle_client dispatch hang_up fd rest rounds w

  -- The test for a full buffer never fires.
  pub handle_client-received :
      (fd : ℤ) (buf bytes : List ℕ) (b : ℕ) (rounds : List Round) (w : W)
      → handle_client dispatch hang_up fd buf (received (b ∷ bytes) ∷ rounds) w
        ≡ after_drain fd (drain dispatch fd (buf ++ b ∷ bytes) w) rounds
  unfolding handle_client
  handle_client-received fd buf bytes b rounds w = go (drain dispatch fd (buf ++ b ∷ bytes) w) refl
    where
      go :
          (d : Drained W)
          → drain dispatch fd (buf ++ b ∷ bytes) w ≡ d
          → handle_client dispatch hang_up fd buf (received (b ∷ bytes) ∷ rounds) w
            ≡ after_drain fd d rounds
      go (broken e w') k = rw (k, handle_client)
      go (waiting rest w') k =
          let lt : length rest < recv_buf_size =
            incomplete-lt rest (drain-incomplete dispatch fd (buf ++ b ∷ bytes) rest w w' k) in
          let f : (length rest == recv_buf_size) ≡ false = ground arith in
          rw (k, handle_client) (rw f)

  -- The receive buffer never fills up: however the bytes arrive, a connection never ends by the
  -- test for a full buffer, and whenever it is open, the next `recv` has room for a byte or more.
  pub handle_client-HasRoom :
      (fd : ℤ) (buf : List ℕ) (rounds : List Round) (w : W)
      → length buf < recv_buf_size
      → HasRoom (handle_client dispatch hang_up fd buf rounds w)
  unfolding handle_client
  handle_client-HasRoom fd buf [] w room = room
  handle_client-HasRoom fd buf (stopped ∷ rounds) w room = λ e. cc
  handle_client-HasRoom fd buf (interrupted ∷ rounds) w room =
      handle_client-HasRoom fd buf rounds w room
  handle_client-HasRoom fd buf (failed ∷ rounds) w room = λ e. cc
  handle_client-HasRoom fd buf (received [] ∷ rounds) w room = λ e. cc
  handle_client-HasRoom fd buf (received (b ∷ bytes) ∷ rounds) w room =
      subst HasRoom (sym (handle_client-received fd buf bytes b rounds w)) (
        go (λ rest w'. handle_client-HasRoom fd rest rounds w')
          (drain dispatch fd (buf ++ b ∷ bytes) w) refl)
    where
      go :
          ((rest : List ℕ) (w' : W)
            → length rest < recv_buf_size
            → HasRoom (handle_client dispatch hang_up fd rest rounds w'))
          → (d : Drained W) → drain dispatch fd (buf ++ b ∷ bytes) w ≡ d
          → HasRoom (after_drain fd d rounds)
      go ih (broken e w') k = λ q. cc
      go ih (waiting rest w') k =
          ih rest w'
            (incomplete-lt rest (drain-incomplete dispatch fd (buf ++ b ∷ bytes) rest w w' k))

  -- A connection whose bytes have all come in and been drained.
  abbrev pub settle : ℤ → Drained W → Session W
  settle fd (waiting rest w) = still_open rest w
  settle fd (broken e w) = closed (corrupt e) (hang_up fd w)

  handle_client-arrived_at :
      (fd : ℤ) (buf : List ℕ) (rounds : List Round) (w : W)
      → All Delivers rounds
      → decode buf ≡ fail incomplete
      → handle_client dispatch hang_up fd buf rounds w
        ≡ settle fd (drain dispatch fd (buf ++ arrived rounds) w)
  unfolding handle_client
  handle_client-arrived_at fd buf [] w live short =
      ap (settle fd) (sym (drain-fail dispatch fd buf w short))
      ∙ ap (λ l. settle fd (drain dispatch fd l w)) (sym (append-nil buf))
  handle_client-arrived_at fd buf (stopped ∷ rounds) w live short = absurd live.0
  handle_client-arrived_at fd buf (interrupted ∷ rounds) w live short =
      handle_client-arrived_at fd buf rounds w live.1 short
  handle_client-arrived_at fd buf (failed ∷ rounds) w live short = absurd live.0
  handle_client-arrived_at fd buf (received [] ∷ rounds) w live short = absurd live.0
  handle_client-arrived_at fd buf (received (b ∷ bytes) ∷ rounds) w live short =
      handle_client-received fd buf bytes b rounds w
      ∙ go (λ rest w'. handle_client-arrived_at fd rest rounds w' live.1)
          (drain dispatch fd (buf ++ b ∷ bytes) w) refl
      ∙ ap (settle fd) (sym (drain-append dispatch fd (buf ++ b ∷ bytes) (arrived rounds) w))
      ∙ ap (λ l. settle fd (drain dispatch fd l w)) (append_assoc buf (b ∷ bytes) (arrived rounds))
    where
      go :
          ((rest : List ℕ) (w' : W)
            → decode rest ≡ fail incomplete
            → handle_client dispatch hang_up fd rest rounds w'
              ≡ settle fd (drain dispatch fd (rest ++ arrived rounds) w'))
          → (d : Drained W) → drain dispatch fd (buf ++ b ∷ bytes) w ≡ d
          → after_drain fd d rounds ≡ settle fd (resume dispatch fd d (arrived rounds))
      go ih (broken e w') k = refl
      go ih (waiting rest w') k =
          ih rest w' (drain-incomplete dispatch fd (buf ++ b ∷ bytes) rest w w' k)

  -- The cuts of the stream do not matter: however `recv` cuts the bytes of a client into chunks,
  -- and however often it is interrupted, the connection and the world end as if all the bytes had
  -- come in one piece and been drained once.
  pub handle_client-arrived :
      (fd : ℤ) (rounds : List Round) (w : W)
      → All Delivers rounds
      → handle_client dispatch hang_up fd [] rounds w
        ≡ settle fd (drain dispatch fd (arrived rounds) w)
  unfolding decode
  handle_client-arrived fd rounds w live = handle_client-arrived_at fd [] rounds w live refl
