-- ===== src/Dispatcher/Examples.antt =====
-- Frames dispatched over a stand-in for cJSON, with a slow client and with one that hangs up.
use embedded_device_forwarde.Prelude.{false, ℕ, ◌+◌, ◌*◌, ◌≤◌, ◌≡◌, refl, List, [], ◌∷◌, none}
use embedded_device_forwarde.Prelude.Int.{pos}
use embedded_device_forwarde.Prelude.Text.{codes}
use embedded_device_forwarde.Json.Toy.{toy}
use embedded_device_forwarde.Protocol.Cmd
use embedded_device_forwarde.Protocol.Header.{Header}
use embedded_device_forwarde.Protocol.Encode.{frame_bytes}
use embedded_device_forwarde.Protocol.Decode.{decode}
use embedded_device_forwarde.Registry.Table.{find_by_fd}
use embedded_device_forwarde.Registry.Invariant.{IsValid}
use embedded_device_forwarde.Ipc.Server.{
  Round, received, handle_client, closed, disconnected, drain, drain_fuel,
}
use embedded_device_forwarde.Dispatcher.Send.{
  accepted, again, broken, send_nonblock_retry, Split, calls, max_retries,
  send_nonblock_retry-Split, send_nonblock_retry-calls,
}
use embedded_device_forwarde.Dispatcher.Sent.{Sent}
use embedded_device_forwarde.Dispatcher.Dispatch.{World, dispatch, hang_up}
use embedded_device_forwarde.Dispatcher.Connection.{closed-find_by_fd}

abbrev start : World
start = record {
  registry = record { table = []; inited = false };
  output = [];
  notes = [];
  clock = λ n. n * 1000;
  turn = 0;
  script = accepted 5 ∷ again ∷ accepted 100 ∷ [];
  stack = [];
}

start-IsValid : IsValid start.registry
start-IsValid = record { slots = λ e. cc e; distinct = tt }

abbrev register_header : Header
register_header = record {
  magic_field = 0xEB7C;
  version_field = 1;
  cmd = Cmd.register;
  seq = 9;
  payload_len = 2;
}

abbrev dev : List ℕ
dev = codes "d1"

send_nonblock_retry-Split_example :
    Split dev (send_nonblock_retry dev (again ∷ accepted 1 ∷ broken ∷ []))
send_nonblock_retry-Split_example = send_nonblock_retry-Split dev (again ∷ accepted 1 ∷ broken ∷ [])

send_nonblock_retry-calls_example :
    calls (again ∷ accepted 1 ∷ broken ∷ [])
    ≤ calls (send_nonblock_retry dev (again ∷ accepted 1 ∷ broken ∷ [])).script
      + (2 + (max_retries + 1))
send_nonblock_retry-calls_example = send_nonblock_retry-calls dev (again ∷ accepted 1 ∷ broken ∷ [])

-- The client sends a REGISTER frame and closes.
abbrev short_visit : List Round
short_visit = received (frame_bytes register_header dev) ∷ received [] ∷ []

short_visit_end :
    handle_client (dispatch toy) hang_up (pos 4) [] short_visit start
    ≡ closed disconnected (hang_up (pos 4) (dispatch toy (pos 4) register_header dev start))
unfolding handle_client drain drain_fuel decode
short_visit_end = refl

closed-find_by_fd_example :
    find_by_fd (pos 4) (hang_up (pos 4) (dispatch toy (pos 4) register_header dev start)).registry
    ≡ none
closed-find_by_fd_example =
    closed-find_by_fd toy (pos 4) [] short_visit start
      (hang_up (pos 4) (dispatch toy (pos 4) register_header dev start)) disconnected start-IsValid
      short_visit_end
