-- ===== src/EventQueue/Threads.antt =====
-- The reactor thread and the dispatcher thread on the queue: every interleaving of the critical
-- sections, with any wake-ups of the waiting reactor, in time or by timeout.
use embedded_device_forwarde.Prelude.{
  subst, ℕ, ◌+◌, ◌%◌, ◌≤◌, ◌≡◌, refl, sym, ◌∙◌, ap, List, [], ◌∷◌, ◌++◌, append_assoc, Bool, true,
  false, Option, none, some, arith, length,
}
use embedded_device_forwarde.EventQueue.Ring.{
  Event, Queue, empty, Pushing, pushed, dropped, waits, push_start, push_wake, pop_start, ulong_mod,
}
use embedded_device_forwarde.EventQueue.Fifo.{
  IsValid, capacity, count, contents, length-span, fifo_push, fifo_pop, on_contents, push_refines,
  pop_refines, pop-IsValid, push_wake_timeout,
}

-- The queue, the message that the reactor waits to push, and the history: the messages for which
-- `queue_push` returned 0, those that `queue_pop` delivered, and how many pushes returned -1.
pub record Threads : Type 0 where
  pub queue : Queue
  pub waiting : Option Event
  pub accepted : List Event
  pub delivered : List Event
  pub lost : ℕ

abbrev pub start : Threads
start = record { queue = empty; waiting = none; accepted = []; delivered = []; lost = 0 }

-- The history after a critical section of `queue_push`.
abbrev pub settle : Event → Pushing × Queue → Threads → Threads
settle msg (pushed, q) s = record s { queue = q; waiting = none; accepted = s.accepted ++ msg ∷ [] }
settle msg (dropped, q) s = record s { queue = q; waiting = none; lost = s.lost + 1 }
settle msg (waits, q) s = record s { queue = q; waiting = some msg }

pub data Step (s t : Threads) : Type 0 where
  push : (msg : Event) → s.waiting ≡ none → t ≡ settle msg (push_start msg s.queue) s → Step s t
  wake :
      (timed_out : Bool) (msg : Event)
      → s.waiting ≡ some msg
      → t ≡ settle msg (push_wake timed_out msg s.queue) s
      → Step s t
  pop :
      (msg : Event) (q : Queue)
      → pop_start s.queue ≡ some (msg, q)
      → t ≡ record s { queue = q; delivered = s.delivered ++ msg ∷ [] }
      → Step s t

pub data Reach (s : Threads) : Threads → Type 0 where
  here : Reach s s
  next : {t u : Threads} → Reach s t → Step t u → Reach s u

pub record Inv (s : Threads) : Type 0 where
  pub valid : IsValid s.queue
  pub fifo : s.accepted ≡ s.delivered ++ contents s.queue
  pub counted : s.queue.drops ≡ s.lost % ulong_mod

pub start-Inv : Inv start
start-Inv = record { valid = omega arith; fifo = refl; counted = refl }

drops-push_start : (msg : Event) (q : Queue) → (push_start msg q).1.drops ≡ q.drops
unfolding push_start
drops-push_start msg q = ground arith

drops-push_wake : (msg : Event) (q : Queue) → (push_wake false msg q).1.drops ≡ q.drops
unfolding push_wake
drops-push_wake msg q = ground arith

drops-pop_start : (q q' : Queue) (msg : Event) → pop_start q ≡ some (msg, q') → q'.drops ≡ q.drops
unfolding pop_start
drops-pop_start q q' msg e = ground arith

-- A try to push that did what the bounded FIFO does.
settle-Inv :
    (msg : Event) (s : Threads) (r : Pushing × Queue)
    → Inv s
    → (r.0, contents r.1) ≡ fifo_push msg (contents s.queue)
    → IsValid r.1
    → r.1.drops ≡ s.queue.drops
    → Inv (settle msg r s)
settle-Inv msg s (pushed, q) v e k d =
    ground (arith, append_assoc s.delivered (contents s.queue) (msg ∷ []))
settle-Inv msg s (dropped, q) v e k d = ground arith
settle-Inv msg s (waits, q) v e k d = ground arith

timeout-Inv : (msg : Event) (s : Threads) → Inv s → Inv (settle msg (push_wake true msg s.queue) s)
unfolding push_wake
timeout-Inv msg s v = record {
  valid = (push_wake_timeout msg s.queue v.valid).0;
  fifo = v.fifo;
  counted = omega (arith, v.counted);
}

fifo_pop-some :
    (l : List Event) {msg : Event} {rest : List Event}
    → fifo_pop l ≡ some (msg, rest)
    → l ≡ msg ∷ rest
fifo_pop-some [] e = cc
fifo_pop-some (x ∷ l) e = ground arith

pop-Inv :
    (s : Threads) (msg : Event) (q : Queue)
    → Inv s
    → pop_start s.queue ≡ some (msg, q)
    → Inv (record s { queue = q; delivered = s.delivered ++ msg ∷ [] })
pop-Inv s msg q v e = record {
  valid = pop-IsValid s.queue q msg v.valid e;
  fifo =
      v.fifo
      ∙ ap (λ l. s.delivered ++ l)
          (fifo_pop-some (contents s.queue) (sym (pop_refines s.queue v.valid) ∙ ap on_contents e))
      ∙ sym (append_assoc s.delivered (msg ∷ []) (contents q));
  counted = drops-pop_start s.queue q msg e ∙ v.counted;
}

pub Step-Inv : (s t : Threads) → Step s t → Inv s → Inv t
Step-Inv s t (push msg idle e) v =
    let r = push_refines msg s.queue v.valid in
    subst Inv (sym e)
      (settle-Inv msg s (push_start msg s.queue) v r.0 r.2 (drops-push_start msg s.queue))
Step-Inv s t (wake true msg w e) v = subst Inv (sym e) (timeout-Inv msg s v)
Step-Inv s t (wake false msg w e) v =
    let r = push_refines msg s.queue v.valid in
    subst Inv (sym e)
      (settle-Inv msg s (push_wake false msg s.queue) v r.1 r.3 (drops-push_wake msg s.queue))
Step-Inv s t (pop msg q k e) v = subst Inv (sym e) (pop-Inv s msg q v k)

Reach-Inv : {s : Threads} → Reach start s → Inv s
Reach-Inv here = start-Inv
Reach-Inv (next {t = t} {u = u} r st) = Step-Inv t u st (Reach-Inv r)

-- In every interleaving of the two threads: what the dispatcher has been given and what is still
-- queued are, in order, exactly the messages for which `queue_push` returned 0, so none of them is
-- lost, repeated or overtaken; at most 127 are queued; and the drop counter is the number of
-- pushes that returned -1, modulo 2 ^ 64.
pub Reach-delivery :
    (s : Threads)
    → Reach start s
    → (s.accepted ≡ s.delivered ++ contents s.queue)
      × (length (contents s.queue) ≤ capacity)
      × (s.queue.drops ≡ s.lost % ulong_mod)
Reach-delivery s r =
    let v = Reach-Inv r in
    (v.fifo, omega (arith, length-span s.queue.slots s.queue.head (count s.queue)), v.counted)
