-- ===== src/Dispatcher/Dispatch.antt =====
-- proto_dispatcher.c: `send_register_ack` and `proto_dispatch`, over the state that they reach.
use embedded_device_forwarde.Prelude.{
  ℕ, suc, List, [], ◌∷◌, ◌++◌, Bool, none, some, ◌==◌, ◌||◌, if◌then◌else◌,
}
use embedded_device_forwarde.Prelude.Int.{ℤ, pos, minus_one, int_eq, is_negative}
use embedded_device_forwarde.Json.{Cjson}
use embedded_device_forwarde.Protocol.Cmd
use embedded_device_forwarde.Protocol.Header.{Header}
use embedded_device_forwarde.Registry.Table.{Registry, register, update_heartbeat, unregister}
use embedded_device_forwarde.Dispatcher.Send.{SendResult, finished, send_nonblock_retry}
use embedded_device_forwarde.Dispatcher.Ack.{ack_frame}

-- The lines that the switch logs, by the branch that logs them.
pub data Note : Type 0 where
  ack_failed unregistered_heartbeat data_stub cmd_stub log_stub fw_unimplemented : Note
  unexpected_ack unknown_cmd : Note

-- The registry, what was written to each client, the log, and the environment: `clock n` is the
-- monotonic time while the n-th REGISTER or HEARTBEAT frame is handled (each reads it once at
-- most), `turn` counts those frames, `script` lists the results of the `send` calls to come, and
-- `stack` is what the frame buffer on the stack holds.
pub record World : Type 0 where
  pub registry : Registry
  pub output : List (ℤ × List ℕ)
  pub notes : List Note
  pub clock : ℕ → ℕ
  pub turn : ℕ
  pub script : List SendResult
  pub stack : List ℕ

abbrev pub now_ms : World → ℕ
now_ms w = w.clock w.turn

abbrev note : Note → World → World
note n w = record w { notes = n ∷ w.notes }

-- `send_nonblock_retry` on the bytes of the frame; -1 where not all of them went out.
write_ack : ℤ → List ℕ → World → ℤ × World
write_ack fd bytes w =
    let s = send_nonblock_retry bytes w.script in
    let w' = record w { output = w.output ++ (fd, s.written) ∷ []; script = s.script } in
    elim s.outcome [
      | finished ↦ (pos 0, w')
      | _ ↦ (minus_one, record w' { notes = ack_failed ∷ w'.notes })
    ]

unfoldable pub send_register_ack : ℤ → ℕ → Bool → World → ℤ × World
unfolding write_ack
send_register_ack fd seq ok w = elim (ack_frame w.stack seq ok) [
  | none ↦ (minus_one, note ack_failed w)
  | some bytes ↦ write_ack fd bytes w
]

module _ (cjson : Cjson) where
  -- `case PROTO_REGISTER`. The clock is read inside `registry_register`, if it gets that far.
  unfoldable pub on_register : ℤ → Header → List ℕ → World → World
  on_register fd hdr payload w =
      let (rc, registry') = register cjson fd payload hdr.payload_len (now_ms w) w.registry in
      (send_register_ack fd hdr.seq (int_eq rc (pos 0))
        (record w { registry = registry'; turn = suc w.turn })).1

  -- `case PROTO_HEARTBEAT`.
  unfoldable pub on_heartbeat : ℤ → World → World
  on_heartbeat fd w =
      let (rc, registry') = update_heartbeat fd (now_ms w) w.registry in
      let w' = record w { registry = registry'; turn = suc w.turn } in
      if is_negative rc then note unregistered_heartbeat w' else w'

  -- The cases that only log, by the command code.
  stub_note : ℕ → Note
  stub_note cmd =
      if cmd == Cmd.port_data
      then data_stub
      else if cmd == Cmd.command
      then cmd_stub
      else if cmd == Cmd.log
      then log_stub
      else if cmd == Cmd.fw_begin || cmd == Cmd.fw_chunk || cmd == Cmd.fw_end || cmd == Cmd.fw_query
      then fw_unimplemented
      else if cmd == Cmd.register_ack
      then unexpected_ack
      else unknown_cmd

  -- `proto_dispatch`: every case returns 0.
  unfoldable pub proto_dispatch : ℤ → Header → List ℕ → World → ℤ × World
  unfolding stub_note
  proto_dispatch fd hdr payload w =
      if hdr.cmd == Cmd.register
      then (pos 0, on_register fd hdr payload w)
      else if hdr.cmd == Cmd.heartbeat
      then (pos 0, on_heartbeat fd w)
      else (pos 0, note (stub_note hdr.cmd) w)

  -- The frames of `handle_client` ignore the result.
  abbrev pub dispatch : ℤ → Header → List ℕ → World → World
  dispatch fd hdr payload w = (proto_dispatch fd hdr payload w).1

-- `registry_unregister(client_fd); close(client_fd)` at the label `done`.
unfoldable pub hang_up : ℤ → World → World
hang_up fd w = record w { registry = (unregister fd w.registry).1 }
