-- ===== src/Ipc/Server.antt =====
-- ipc_server.c: `handle_client` and `ipc_thread`. The world W is what a dispatched frame can
-- change (registry, output); `dispatch` is `proto_dispatch`, `hang_up` is `registry_unregister`
-- followed by `close`. The valid bytes of `buf` are the list, so `buf_len` is its length.
use embedded_device_forwarde.Prelude.{
  ℕ, zero, suc, ◌+◌, List, [], ◌∷◌, ◌++◌, length, drop, ◌==◌, if◌then◌else◌,
}
use embedded_device_forwarde.Prelude.Int.{ℤ}
use embedded_device_forwarde.Protocol.Header.{Header, hdr_size, max_payload, ProtoErr, incomplete}
use embedded_device_forwarde.Protocol.Decode.{frame, fail, decode}

abbrev pub recv_buf_size : ℕ
recv_buf_size = hdr_size + max_payload

-- One turn of the receive loop, as the environment gives it: the run flag has been cleared, `recv`
-- returned these bytes (none of them when the peer has closed), it was interrupted, or it failed.
pub data Round : Type 0 where
  stopped : Round
  received : List ℕ → Round
  interrupted : Round
  failed : Round

-- Why the loop ended.
pub data End : Type 0 where
  not_running disconnected recv_error buffer_full : End
  corrupt : ProtoErr → End

-- The inner loop's end: the bytes kept for the next `recv`, or a fatal decode error.
pub data Drained {ℓ} (W : Type ℓ) : Type ℓ where
  waiting : List ℕ → W → Drained W
  broken : ProtoErr → W → Drained W

-- A connection: open with these bytes buffered, or closed.
pub data Session {ℓ} (W : Type ℓ) : Type ℓ where
  still_open : List ℕ → W → Session W
  closed : End → W → Session W

-- `r < 0`: wait for more bytes if the frame is incomplete, else give the connection up.
abbrev pub stop {ℓ} : {W : Type ℓ} → ProtoErr → List ℕ → W → Drained W
stop incomplete buf w = waiting buf w
stop e buf w = broken e w

module _ {ℓ} {W : Type ℓ} (dispatch : ℤ → Header → List ℕ → W → W) where
  -- `while (1) { proto_decode; proto_dispatch; memmove }`.
  unfoldable pub drain_fuel : ℕ → ℤ → List ℕ → W → Drained W
  drain_fuel zero fd buf w = waiting buf w
  drain_fuel (suc fuel) fd buf w = elim (decode buf) [
    | frame n h payload ↦ drain_fuel fuel fd (drop n buf) (dispatch fd h payload w)
    | fail e ↦ stop e buf w
  ]

  -- Each frame takes bytes off the buffer, so one turn more than it has bytes is enough.
  unfoldable pub drain : ℤ → List ℕ → W → Drained W
  drain fd buf w = drain_fuel (suc (length buf)) fd buf w

module _ {ℓ} {W : Type ℓ} (dispatch : ℤ → Header → List ℕ → W → W) (hang_up : ℤ → W → W) where
  -- `while (run_state_is_running()) { recv; drain; full? }`, then the label `done`.
  unfoldable pub handle_client : ℤ → List ℕ → List Round → W → Session W
  handle_client fd buf [] w = still_open buf w
  handle_client fd buf (stopped ∷ rounds) w = closed not_running (hang_up fd w)
  handle_client fd buf (interrupted ∷ rounds) w = handle_client fd buf rounds w
  handle_client fd buf (failed ∷ rounds) w = closed recv_error (hang_up fd w)
  handle_client fd buf (received [] ∷ rounds) w = closed disconnected (hang_up fd w)
  handle_client fd buf (received (b ∷ bytes) ∷ rounds) w =
      elim (drain dispatch fd (buf ++ b ∷ bytes) w) [
        | broken e w' ↦ closed (corrupt e) (hang_up fd w')
        | waiting rest w' ↦
            let next = handle_client fd rest rounds w' in
            if length rest == recv_buf_size then closed buffer_full (hang_up fd w') else next
      ]

-- What one turn of the accept loop meets: `accept` failed, or gave a client with its rounds.
pub data Accept : Type 0 where
  no_client : Accept
  client : ℤ → List Round → Accept

abbrev pub world {ℓ} : {W : Type ℓ} → Session W → W
world (still_open buf w) = w
world (closed e w) = w

module _ {ℓ} {W : Type ℓ} (dispatch : ℤ → Header → List ℕ → W → W) (hang_up : ℤ → W → W) where
  -- `ipc_thread`: one client after the other, while the run flag is set.
  unfoldable pub ipc_thread : List Accept → W → W
  ipc_thread [] w = w
  ipc_thread (no_client ∷ turns) w = ipc_thread turns w
  ipc_thread (client fd rounds ∷ turns) w =
      ipc_thread turns (world (handle_client dispatch hang_up fd [] rounds w))
