-- ===== src/EventQueue/Ring.antt =====
-- event_queue.c: each critical section, from one acquisition of the lock to its release (a wait on
-- a condition variable releases it), is a function on the queue.
use embedded_device_forwarde.Prelude.{
  ℕ, ◌+◌, ◌%◌, ◌^◌, List, [], Bool, true, false, Option, none, some, ◌==◌, get_or, set, replicate,
  if◌then◌else◌,
}
use embedded_device_forwarde.Prelude.Text.{Text}

abbrev pub max_data : ℕ
max_data = 1024

-- `event_msg_t`.
pub record Event : Type 0 where
  pub dst : Text
  pub len : ℕ
  pub bytes : List ℕ

abbrev pub blank : Event
blank = record { dst = []; len = 0; bytes = [] }

abbrev pub qsize : ℕ
qsize = 128

-- `unsigned long` on the target's 64-bit Linux.
abbrev pub ulong_mod : ℕ
ulong_mod = 2 ^ 64

-- `queue`, `head`, `tail`, `g_drop_count`.
pub record Queue : Type 0 where
  pub slots : List Event
  pub head : ℕ
  pub tail : ℕ
  pub drops : ℕ

-- The queue at program start, and `queue_init`.
abbrev pub empty : Queue
empty = record { slots = replicate qsize blank; head = 0; tail = 0; drops = 0 }

unfoldable pub init : Queue → Queue
init q = record q { head = 0; tail = 0; drops = 0 }

abbrev pub is_full : Queue → Bool
is_full q = (q.tail + 1) % qsize == q.head

abbrev pub enqueue : Event → Queue → Queue
enqueue msg q = record q { slots = set q.slots q.tail msg; tail = (q.tail + 1) % qsize }

-- What `queue_push` is at when it gives up the lock: it returns 0, or -1, or waits for room.
pub data Pushing : Type 0 where
  pushed dropped waits : Pushing

-- From the entry to the first release of the lock. The loop's test repeats that of the `if`.
unfoldable pub push_start : Event → Queue → Pushing × Queue
push_start msg q = if is_full q then (waits, q) else (pushed, enqueue msg q)

-- From the return of `pthread_cond_timedwait`, with ETIMEDOUT or not, to the next release.
unfoldable pub push_wake : Bool → Event → Queue → Pushing × Queue
push_wake true msg q = (dropped, record q { drops = (q.drops + 1) % ulong_mod })
push_wake false msg q = if is_full q then (waits, q) else (pushed, enqueue msg q)

-- `queue_pop`, from an acquisition to the next release: it waits at an empty queue.
unfoldable pub pop_start : Queue → Option (Event × Queue)
pop_start q =
    if q.head == q.tail
    then none
    else some (get_or q.slots q.head blank, record q { head = (q.head + 1) % qsize })

unfoldable pub get_drop_count : Queue → ℕ
get_drop_count q = q.drops
