-- ===== src/EventQueue/Observe.antt =====
-- The queue as its callers see it: a bounded FIFO with a counter.
use embedded_device_forwarde.Prelude.{
  ℕ, ◌+◌, ◌%◌, ◌≡◌, refl, ap, ap₂, ◌∙◌, List, [], ◌∷◌, Bool, true, false, Option, none, some, arith,
}
use embedded_device_forwarde.EventQueue.Ring.{
  Event, Queue, Pushing, dropped, push_start, push_wake, pop_start, get_drop_count, ulong_mod,
}
use embedded_device_forwarde.EventQueue.Fifo.{
  IsValid, contents, fifo_push, fifo_pop, on_contents, push_refines, pop_refines, pop-IsValid,
  push_wake_timeout,
}

-- The critical sections of `queue_push`, with whether the wait timed out, and of `queue_pop`, and
-- `queue_get_drop_count`.
pub data Operation : Type 0 where
  push : Event → Operation
  wake : Bool → Event → Operation
  pop get_drops : Operation

pub data Answer : Type 0 where
  pushing : Pushing → Answer
  popping : Option Event → Answer
  number : ℕ → Answer

after_pop : {Q : Type 0} → Q → Option (Event × Q) → Answer × Q
after_pop q none = (popping none, q)
after_pop q (some (msg, q')) = (popping (some msg), q')

unfoldable pub apply : Operation → Queue → Answer × Queue
unfolding after_pop
apply (push msg) q = let (s, q') = push_start msg q in (pushing s, q')
apply (wake timed_out msg) q = let (s, q') = push_wake timed_out msg q in (pushing s, q')
apply pop q = after_pop q (pop_start q)
apply get_drops q = (number (get_drop_count q), q)

-- The messages, oldest first, and how many were dropped, as an `unsigned long`.
abbrev pub Fifo : Type 0
Fifo = List Event × ℕ

abbrev pub view : Queue → Fifo
view q = (contents q, q.drops)

abbrev counted : ℕ → Pushing × List Event → Answer × Fifo
counted drops (s, msgs) = (pushing s, (msgs, drops))

after_fifo_pop : Fifo → Option (Event × List Event) → Answer × Fifo
after_fifo_pop f none = (popping none, f)
after_fifo_pop f (some (msg, msgs)) = (popping (some msg), (msgs, f.1))

unfoldable pub specified : Operation → Fifo → Answer × Fifo
unfolding after_fifo_pop
specified (push msg) f = counted f.1 (fifo_push msg f.0)
specified (wake false msg) f = counted f.1 (fifo_push msg f.0)
specified (wake true msg) f = (pushing dropped, (f.0, (f.1 + 1) % ulong_mod))
specified pop f = after_fifo_pop f (fifo_pop f.0)
specified get_drops f = (number f.1, f)

-- The answers to a sequence of operations.
unfoldable pub answers :
    {Q : Type 0} → (Operation → Q → Answer × Q) → List Operation → Q → List Answer
answers step [] q = []
answers step (op ∷ ops) q = let (a, q') = step op q in a ∷ answers step ops q'

record Agrees (r : Answer × Queue) (s : Answer × Fifo) : Type 0 where
  answer : (r.0, view r.1) ≡ s
  valid : IsValid r.1

push-drops : (msg : Event) (q : Queue) → (push_start msg q).1.drops ≡ q.drops
unfolding push_start
push-drops msg q = ground arith

wake-drops : (msg : Event) (q : Queue) → (push_wake false msg q).1.drops ≡ q.drops
unfolding push_wake
wake-drops msg q = ground arith

pop-Agrees :
    (q : Queue) (o : Option (Event × Queue))
    → ((msg : Event) (q' : Queue) → o ≡ some (msg, q') → IsValid q' × (q'.drops ≡ q.drops))
    → IsValid q
    → on_contents o ≡ fifo_pop (contents q)
    → Agrees (after_pop q o) (after_fifo_pop (view q) (fifo_pop (contents q)))
unfolding after_pop after_fifo_pop
pop-Agrees q none keeps v e = record { answer = ap (after_fifo_pop (view q)) e; valid = v }
pop-Agrees q (some (msg, q')) keeps v e =
    let k = keeps msg q' refl in
    record {
      answer =
          ap (λ d. (popping (some msg), (contents q', d))) k.1 ∙ ap (after_fifo_pop (view q)) e;
      valid = k.0;
    }

pop-drops : (q q' : Queue) (msg : Event) → pop_start q ≡ some (msg, q') → q'.drops ≡ q.drops
unfolding pop_start
pop-drops q q' msg e = ground arith

timed_out-Agrees :
    (msg : Event) (q : Queue)
    → IsValid q
    → Agrees (apply (wake true msg) q) (specified (wake true msg) (view q))
unfolding apply specified push_wake
timed_out-Agrees msg q v = record { answer = refl; valid = (push_wake_timeout msg q v).0 }

get_drops-Agrees :
    (q : Queue) → IsValid q → Agrees (apply get_drops q) (specified get_drops (view q))
unfolding apply specified get_drop_count
get_drops-Agrees q v = record { answer = refl; valid = v }

apply-Agrees :
    (op : Operation) (q : Queue) → IsValid q → Agrees (apply op q) (specified op (view q))
unfolding apply specified
apply-Agrees (push msg) q v =
    let r = push_refines msg q v in
    record { answer = ap₂ counted (push-drops msg q) r.0; valid = r.2 }
apply-Agrees (wake false msg) q v =
    let r = push_refines msg q v in
    record { answer = ap₂ counted (wake-drops msg q) r.1; valid = r.3 }
apply-Agrees (wake true msg) q v = timed_out-Agrees msg q v
apply-Agrees pop q v =
    pop-Agrees q (pop_start q) (λ msg q' e. (pop-IsValid q q' msg v e, pop-drops q q' msg e)) v
      (pop_refines q v)
apply-Agrees get_drops q v = get_drops-Agrees q v

-- `queue_push`, `queue_pop` and `queue_get_drop_count` on a valid queue, such as `queue_init` leaves, give
-- the answers of a bounded FIFO of 127 messages with a counter, in whatever sequence they are called and
-- whichever waits time out: a push waits at 127 messages, and at a timeout drops the message and counts
-- it; a pop waits for a message, and gives the oldest.
pub answers-refines :
    (ops : List Operation) (q : Queue)
    → IsValid q
    → answers apply ops q ≡ answers specified ops (view q)
unfolding answers
answers-refines [] q v = refl
answers-refines (op ∷ ops) q v =
    let h = apply-Agrees op q v in
    ap (λ l. (apply op q).0 ∷ l) (answers-refines ops (apply op q).1 h.valid)
    ∙ ap (λ (r : Answer × Fifo). r.0 ∷ answers specified ops r.1) h.answer
