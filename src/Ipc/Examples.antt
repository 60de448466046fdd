-- ===== src/Ipc/Examples.antt =====
-- A connection that records the frames that it dispatches, and the theorems at it.
use embedded_device_forwarde.Prelude.{ℕ, ◌≡◌, refl, List, [], ◌∷◌, arith, All}
use embedded_device_forwarde.Prelude.Int.{ℤ, pos}
use embedded_device_forwarde.Prelude.Text.{codes}
use embedded_device_forwarde.Protocol.Cmd
use embedded_device_forwarde.Protocol.Header.{Header}
use embedded_device_forwarde.Protocol.Decode.{decode}
use embedded_device_forwarde.Ipc.Server.{
  Round, received, interrupted, still_open, drain, drain_fuel, handle_client,
}
use embedded_device_forwarde.Ipc.Chunks.{
  arrived, HasRoom, settle, handle_client-HasRoom, handle_client-arrived,
}
use embedded_device_forwarde.Ipc.Frames.{Message, IsSendable, wire, deliver, handle_client-wire}

-- What has been dispatched: the fd, the command, the payload, newest first.
abbrev Journal : Type 0
Journal = List (ℤ × ℕ × List ℕ)

abbrev record_frame : ℤ → Header → List ℕ → Journal → Journal
record_frame fd h payload w = (fd, h.cmd, payload) ∷ w

abbrev keep : ℤ → Journal → Journal
keep fd w = w

abbrev heartbeat : Message
heartbeat = record {
  header = record {
    magic_field = 0;
    version_field = 0;
    cmd = Cmd.heartbeat;
    seq = 7;
    payload_len = 0;
  };
  body = [];
}

abbrev chat : Message
chat = record {
  header = record { magic_field = 0; version_field = 0; cmd = Cmd.log; seq = 8; payload_len = 2 };
  body = codes "hi";
}

-- The two frames and the start of a third, cut inside a header and inside a payload.
abbrev rounds : List Round
rounds =
    received (0x7C ∷ 0xEB ∷ 1 ∷ 3 ∷ 7 ∷ [])
    ∷ interrupted
    ∷ received (
        0 ∷ 0 ∷ 0 ∷ 0 ∷ 0 ∷ 0 ∷ 0 ∷ 0x7C ∷ 0xEB ∷ 1 ∷ 0x20 ∷ 8 ∷ 0 ∷ 0 ∷ 0 ∷ 2 ∷ 0 ∷ 0 ∷ 0 ∷ b'h'
        ∷ [])
    ∷ received (b'i' ∷ 0x7C ∷ [])
    ∷ []

rounds_run :
    handle_client record_frame keep (pos 5) [] rounds []
    ≡ still_open (0x7C ∷ []) ((pos 5, Cmd.log, codes "hi") ∷ (pos 5, Cmd.heartbeat, []) ∷ [])
unfolding handle_client drain drain_fuel decode
rounds_run = refl

handle_client-HasRoom_example : HasRoom (handle_client record_frame keep (pos 5) [] rounds [])
handle_client-HasRoom_example =
    handle_client-HasRoom record_frame keep (pos 5) [] rounds [] (omega arith)

handle_client-arrived_example :
    handle_client record_frame keep (pos 5) [] rounds []
    ≡ settle record_frame keep (pos 5) (drain record_frame (pos 5) (arrived rounds) [])
handle_client-arrived_example =
    handle_client-arrived record_frame keep (pos 5) rounds [] (omega arith)

chat-IsSendable : All IsSendable (heartbeat ∷ chat ∷ [])
chat-IsSendable = omega arith

handle_client-wire_example :
    handle_client record_frame keep (pos 5) [] rounds []
    ≡ still_open (0x7C ∷ []) (deliver record_frame (pos 5) (heartbeat ∷ chat ∷ []) [])
unfolding decode wire
handle_client-wire_example =
    handle_client-wire record_frame keep (pos 5) (heartbeat ∷ chat ∷ []) (0x7C ∷ []) rounds []
      chat-IsSendable refl (omega arith) refl
