-- ===== src/Dispatcher/Sent.antt =====
-- proto_dispatcher.c: when `send_nonblock_retry` leaves bytes unsent.
use embedded_device_forwarde.Prelude.{
  tests, inr, ap, inl, ◌∙◌, Bool-cases, ℕ, zero, suc, ◌+◌, ◌≤◌, ◌<◌, ◌≡◌, refl, List, [], ◌∷◌, ◌++◌,
  ◌⊎◌, arith, length, take, drop, ltb, length-drop, take-append-drop,
}
use embedded_device_forwarde.Dispatcher.Send.{
  SendResult, accepted, again, interrupted, broken, Sending, max_retries, send_loop,
  send_nonblock_retry,
}

-- Of some calls of `send`: how many would have blocked, how many failed or took nothing, and the
-- bytes that they took.
unfoldable pub blocked : List SendResult → ℕ
blocked [] = 0
blocked (again ∷ calls) = suc (blocked calls)
blocked (r ∷ calls) = blocked calls

unfoldable pub failed : List SendResult → ℕ
failed [] = 0
failed (broken ∷ calls) = suc (failed calls)
failed (accepted zero ∷ calls) = suc (failed calls)
failed (r ∷ calls) = failed calls

unfoldable pub taken : List SendResult → ℕ
taken [] = 0
taken (accepted n ∷ calls) = n + taken calls
taken (r ∷ calls) = taken calls

-- Why these calls, after so many that would have blocked, end the sending of so many bytes: nine in
-- all would have blocked, one failed, or the results came to their end before the bytes did.
unfoldable pub Reason : ℕ → ℕ → List SendResult → List SendResult → Type 0
unfolding blocked failed taken
Reason len retries calls after =
    (max_retries + 1 ≤ retries + blocked calls)
    ⊎ (1 ≤ failed calls)
    ⊎ ((after ≡ []) × (taken calls < len))

-- The calls that were made, and the reason.
pub record Refused (len retries : ℕ) (before after : List SendResult) : Type 0 where
  pub calls : List SendResult
  pub made : before ≡ calls ++ after
  pub reason : Reason len retries calls after

-- All bytes went out, or the calls that were made say why not.
unfoldable pub Sent : List ℕ → ℕ → List SendResult → Sending → Type 0
Sent buf retries script s = (s.written ≡ buf) ⊎ Refused (length buf) retries script s.script

Reason-cons_accepted :
    (n retries : ℕ) (bytes : List ℕ) (calls after : List SendResult)
    → Reason (length (drop n bytes)) retries calls after
    → Reason (suc (length bytes)) retries (accepted (suc n) ∷ calls) after
unfolding Reason
Reason-cons_accepted n retries bytes calls after r = ground (arith, length-drop n bytes)

Reason-cons_again :
    (len retries : ℕ) (calls after : List SendResult)
    → Reason len (suc retries) calls after
    → Reason len retries (again ∷ calls) after
unfolding Reason
Reason-cons_again len retries calls after r = ground arith

-- One call more before them.
Refused-cons :
    {len retries len' retries' : ℕ} {script after : List SendResult}
    → (c : SendResult) (r : Refused len retries script after)
    → Reason len' retries' (c ∷ r.calls) after
    → Refused len' retries' (c ∷ script) after
Refused-cons c r why = record { calls = c ∷ r.calls; made = ap (λ l. c ∷ l) r.made; reason = why }

send_loop-Sent :
    (buf : List ℕ) (retries : ℕ) (script : List SendResult)
    → Sent buf retries script (send_loop buf retries script)
unfolding send_loop Sent Reason
send_loop-Sent [] retries script = inl refl
send_loop-Sent (b ∷ bytes) retries [] =
    inr (record { calls = []; made = refl; reason = inr (inr (refl, omega arith)) })
send_loop-Sent (b ∷ bytes) retries (accepted zero ∷ script) =
    inr (record { calls = accepted zero ∷ []; made = refl; reason = inr (inl (omega arith)) })
send_loop-Sent (b ∷ bytes) retries (accepted (suc n) ∷ script) =
    elim (send_loop-Sent (drop n bytes) retries script) [
      | inl e ↦
          inl (ap (λ l. take (suc n) (b ∷ bytes) ++ l) e ∙ take-append-drop (suc n) (b ∷ bytes))
      | inr r ↦ inr (
          Refused-cons (accepted (suc n)) r (
            Reason-cons_accepted n retries bytes r.calls
              (send_loop (drop n bytes) retries script).script r.reason))
    ]
send_loop-Sent (b ∷ bytes) retries (again ∷ script) =
    elim (Bool-cases (ltb max_retries (suc retries))) [
      | inl over ↦
          rw over (inr (record { calls = again ∷ []; made = refl; reason = inl (omega tests) }))
      | inr under ↦ rw under (elim (send_loop-Sent (b ∷ bytes) (suc retries) script) [
        | inl e ↦ inl e
        | inr r ↦ inr (
            Refused-cons again r (
              Reason-cons_again (suc (length bytes)) retries r.calls
                (send_loop (b ∷ bytes) (suc retries) script).script r.reason))
      ])
    ]
send_loop-Sent (b ∷ bytes) retries (interrupted ∷ script) =
    elim (send_loop-Sent (b ∷ bytes) retries script) [
      | inl e ↦ inl e
      | inr r ↦ inr (Refused-cons interrupted r r.reason)
    ]
send_loop-Sent (b ∷ bytes) retries (broken ∷ script) =
    inr (record { calls = broken ∷ []; made = refl; reason = inr (inl (omega arith)) })

-- Either all bytes go out, or nine calls of `send` would have blocked, or one failed or took nothing.
pub send_nonblock_retry-Sent :
    (buf : List ℕ) (script : List SendResult) → Sent buf 0 script (send_nonblock_retry buf script)
unfolding send_nonblock_retry
send_nonblock_retry-Sent buf script = send_loop-Sent buf 0 script
