-- ===== src/Dispatcher/Effects.antt =====
-- What one frame does: the answer to REGISTER, the heartbeat, and what the other commands leave.
use embedded_device_forwarde.Prelude.{
  if_true, inr, inl, Bool-cases, subst, ℕ, suc, ◌≡◌, ◌≢◌, ◌∙◌, ap, sym, List, Bool, true, ◌==◌,
  if◌then◌else◌, arith,
}
use embedded_device_forwarde.Prelude.Int.{ℤ, pos, int_eq}
use embedded_device_forwarde.Json.{Cjson}
use embedded_device_forwarde.Protocol.Cmd
use embedded_device_forwarde.Protocol.Header.{Header}
use embedded_device_forwarde.Registry.Table.{register, update_heartbeat}
use embedded_device_forwarde.Registry.Invariant.{
  IsValid, register-IsValid, update_heartbeat-IsValid,
}
use embedded_device_forwarde.Dispatcher.Sent.{Sent}
use embedded_device_forwarde.Dispatcher.Dispatch.{
  World, now_ms, send_register_ack, on_register, on_heartbeat, proto_dispatch, dispatch,
}

-- Sending the acknowledgement leaves the registry alone, and writes at most once.
registry-send_register_ack :
    (fd : ℤ) (seq : ℕ) (ok : Bool) (w : World)
    → (send_register_ack fd seq ok w).1.registry ≡ w.registry
unfolding send_register_ack
registry-send_register_ack fd seq ok w = ground arith

module _ (cjson : Cjson) where
  -- Whether `registry_register` accepts the client of a REGISTER frame.
  abbrev pub accepts : ℤ → Header → List ℕ → World → Bool
  accepts fd hdr payload w =
      int_eq (register cjson fd payload hdr.payload_len (now_ms w) w.registry).0 (pos 0)

  -- The world once `registry_register` has returned.
  abbrev registered : ℤ → Header → List ℕ → World → World
  registered fd hdr payload w = record w {
    registry = (register cjson fd payload hdr.payload_len (now_ms w) w.registry).1;
    turn = suc w.turn;
  }

  dispatch-register :
      (fd : ℤ) (hdr : Header) (payload : List ℕ) (w : World)
      → (hdr.cmd == Cmd.register) ≡ true
      → dispatch cjson fd hdr payload w
        ≡ (send_register_ack fd hdr.seq (accepts fd hdr payload w) (registered fd hdr payload w)).1
  unfolding proto_dispatch on_register
  dispatch-register fd hdr payload w e =
      ap (λ (o : ℤ × World). o.1) (if_true (hdr.cmd == Cmd.register) _ _ e)

  -- The registry after any frame: that of `registry_register` or `registry_update_heartbeat` for
  -- those two commands, at the current time, and the same as before for every other.
  pub registry-proto_dispatch :
      (fd : ℤ) (hdr : Header) (payload : List ℕ) (w : World)
      → (dispatch cjson fd hdr payload w).registry ≡ (
          if hdr.cmd == Cmd.register
          then (register cjson fd payload hdr.payload_len (now_ms w) w.registry).1
          else if hdr.cmd == Cmd.heartbeat
          then (update_heartbeat fd (now_ms w) w.registry).1
          else w.registry)
  unfolding proto_dispatch on_heartbeat
  registry-proto_dispatch fd hdr payload w = elim (Bool-cases (hdr.cmd == Cmd.register)) [
    | inl e ↦
        ap (λ w'. w'.registry) (dispatch-register fd hdr payload w e)
        ∙ registry-send_register_ack fd hdr.seq (accepts fd hdr payload w)
            (registered fd hdr payload w)
        ∙ rw e
    | inr e ↦ ground arith
  ]

  -- Every frame leaves the registry valid: no frame of any client, with any command and payload,
  -- breaks its invariant.
  pub proto_dispatch-IsValid :
      (fd : ℤ) (hdr : Header) (payload : List ℕ) (w : World)
      → IsValid w.registry
      → IsValid (dispatch cjson fd hdr payload w).registry
  proto_dispatch-IsValid fd hdr payload w v =
      subst IsValid (sym (registry-proto_dispatch fd hdr payload w)) (
        ground (
          arith,
          register-IsValid cjson fd payload hdr.payload_len (now_ms w) w.registry v,
          update_heartbeat-IsValid fd (now_ms w) w.registry v,
        ))

  -- No other frame writes anything to any client.
  pub output-proto_dispatch :
      (fd : ℤ) (hdr : Header) (payload : List ℕ) (w : World)
      → hdr.cmd ≢ Cmd.register
      → (dispatch cjson fd hdr payload w).output ≡ w.output
  unfolding proto_dispatch on_heartbeat
  output-proto_dispatch fd hdr payload w other = ground arith
