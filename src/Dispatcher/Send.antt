-- ===== src/Dispatcher/Send.antt =====
-- proto_dispatcher.c: `send_nonblock_retry`. The results of the `send` calls are a script; behind
-- its end every `send` fails. What goes out is the list of bytes that the calls accepted.
use embedded_device_forwarde.Prelude.{
  tests, inr, ap, inl, ◌-◌, ◌∙◌, Bool-cases, ℕ, zero, suc, ◌+◌, ◌≤◌, ◌≡◌, refl, List, [], ◌∷◌, ◌++◌,
  arith, length, take, drop, ltb, if◌then◌else◌, append_assoc, length-drop, take-append-drop,
}

-- One `send`: so many bytes accepted, EAGAIN or EWOULDBLOCK, EINTR, or another error.
pub data SendResult : Type 0 where
  accepted : ℕ → SendResult
  again interrupted broken : SendResult

-- All bytes went out (the count is returned), or one of the two failures, which return -1.
pub data Outcome : Type 0 where
  finished gave_up lost : Outcome

pub record Sending : Type 0 where
  pub outcome : Outcome
  pub written : List ℕ
  pub script : List SendResult

abbrev pub max_retries : ℕ
max_retries = 8

abbrev ending : Outcome → List SendResult → Sending
ending o script = record { outcome = o; written = []; script = script }

abbrev prepend : List ℕ → Sending → Sending
prepend bytes s = record s { written = bytes ++ s.written }

-- `while (sent < len)`, on the bytes that are left. A `send` that returns 0 counts as lost.
unfoldable pub send_loop : List ℕ → ℕ → List SendResult → Sending
send_loop [] retries script = ending finished script
send_loop (b ∷ bytes) retries [] = ending lost []
send_loop (b ∷ bytes) retries (accepted zero ∷ script) = ending lost script
send_loop (b ∷ bytes) retries (accepted (suc n) ∷ script) =
    prepend (take (suc n) (b ∷ bytes)) (send_loop (drop n bytes) retries script)
send_loop (b ∷ bytes) retries (again ∷ script) =
    let rest = send_loop (b ∷ bytes) (suc retries) script in
    if ltb max_retries (suc retries) then ending gave_up script else rest
send_loop (b ∷ bytes) retries (interrupted ∷ script) = send_loop (b ∷ bytes) retries script
send_loop (b ∷ bytes) retries (broken ∷ script) = ending lost script

unfoldable pub send_nonblock_retry : List ℕ → List SendResult → Sending
unfolding send_loop
send_nonblock_retry buf script = send_loop buf 0 script

-- What has gone out, and what has not.
pub record Split (buf : List ℕ) (s : Sending) : Type 0 where
  pub unsent : List ℕ
  pub split : s.written ++ unsent ≡ buf
  pub whole : s.outcome ≡ finished → unsent ≡ []

Split-prepend :
    (n : ℕ) (buf : List ℕ) (s : Sending) → Split (drop n buf) s → Split buf (prepend (take n buf) s)
Split-prepend n buf s p = record {
  unsent = p.unsent;
  split =
      append_assoc (take n buf) s.written p.unsent
      ∙ ap (λ l. take n buf ++ l) p.split
      ∙ take-append-drop n buf;
  whole = p.whole;
}

send_loop-Split :
    (buf : List ℕ) (retries : ℕ) (script : List SendResult)
    → Split buf (send_loop buf retries script)
unfolding send_loop
send_loop-Split [] retries script = record { unsent = []; split = refl; whole = λ e. refl }
send_loop-Split (b ∷ bytes) retries [] = record {
  unsent = b ∷ bytes;
  split = refl;
  whole = λ e. cc;
}
send_loop-Split (b ∷ bytes) retries (accepted zero ∷ script) = record {
  unsent = b ∷ bytes;
  split = refl;
  whole = λ e. cc;
}
send_loop-Split (b ∷ bytes) retries (accepted (suc n) ∷ script) =
    Split-prepend (suc n) (b ∷ bytes) (send_loop (drop n bytes) retries script)
      (send_loop-Split (drop n bytes) retries script)
send_loop-Split (b ∷ bytes) retries (again ∷ script) =
    elim (Bool-cases (ltb max_retries (suc retries))) [
      | inl over ↦ rw over (record { unsent = b ∷ bytes; split = refl; whole = λ e. cc })
      | inr under ↦ rw under (send_loop-Split (b ∷ bytes) (suc retries) script)
    ]
send_loop-Split (b ∷ bytes) retries (interrupted ∷ script) =
    send_loop-Split (b ∷ bytes) retries script
send_loop-Split (b ∷ bytes) retries (broken ∷ script) = record {
  unsent = b ∷ bytes;
  split = refl;
  whole = λ e. cc;
}

-- Whatever `send` does, the bytes that go out are a prefix of the buffer, in order and none twice;
-- where all bytes are reported as sent, they are the whole buffer.
pub send_nonblock_retry-Split :
    (buf : List ℕ) (script : List SendResult) → Split buf (send_nonblock_retry buf script)
unfolding send_nonblock_retry
send_nonblock_retry-Split buf script = send_loop-Split buf 0 script

-- The `send` calls that were not interrupted.
pub calls : List SendResult → ℕ
calls [] = 0
calls (interrupted ∷ script) = calls script
calls (r ∷ script) = suc (calls script)

send_loop-calls :
    (buf : List ℕ) (retries : ℕ) (script : List SendResult)
    → retries ≤ max_retries
    → calls script
      ≤ calls (send_loop buf retries script).script + (length buf + (max_retries + 1 - retries))
unfolding send_loop calls
send_loop-calls [] retries script h = omega arith
send_loop-calls (b ∷ bytes) retries [] h = omega arith
send_loop-calls (b ∷ bytes) retries (accepted zero ∷ script) h = omega arith
send_loop-calls (b ∷ bytes) retries (accepted (suc n) ∷ script) h =
    omega (arith, send_loop-calls (drop n bytes) retries script h, length-drop n bytes)
send_loop-calls (b ∷ bytes) retries (again ∷ script) h =
    elim (Bool-cases (ltb max_retries (suc retries))) [
      | inl over ↦ rw over (omega arith)
      | inr under ↦ rw under (omega (tests, send_loop-calls (b ∷ bytes) (suc retries) script))
    ]
send_loop-calls (b ∷ bytes) retries (interrupted ∷ script) h =
    send_loop-calls (b ∷ bytes) retries script h
send_loop-calls (b ∷ bytes) retries (broken ∷ script) h = omega arith

-- Not counting the calls of `send` that EINTR interrupts, which are repeated without bound, the
-- retry loop makes at most one call for each byte and nine more before it returns.
pub send_nonblock_retry-calls :
    (buf : List ℕ) (script : List SendResult)
    → calls script
      ≤ calls (send_nonblock_retry buf script).script + (length buf + (max_retries + 1))
unfolding send_nonblock_retry
send_nonblock_retry-calls buf script = send_loop-calls buf 0 script (omega arith)
