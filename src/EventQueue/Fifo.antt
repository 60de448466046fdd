-- ===== src/EventQueue/Fifo.antt =====
-- The ring against the bounded FIFO of the messages that it holds, oldest first. One slot stays
-- free, so the capacity is 127.
use embedded_device_forwarde.Prelude.{
  ℕ, zero, suc, ◌+◌, ◌-◌, ◌%◌, ◌<◌, ◌≡◌, ◌≢◌, refl, ◌∙◌, ap, ap₂, List, [], ◌∷◌, ◌++◌, true, false,
  Option, none, some, arith, length, get_or, set, get_or-set_self, get_or-set_ne, length-set, ◌==◌,
  if◌then◌else◌, Bool-cases, inl, inr,
}
use embedded_device_forwarde.EventQueue.Ring.{
  Event, blank, qsize, Queue, init, is_full, enqueue, Pushing, pushed, waits, push_start, push_wake,
  pop_start,
}

abbrev pub capacity : ℕ
capacity = 127

pub record IsValid (q : Queue) : Type 0 where
  pub storage : length q.slots ≡ qsize
  pub head_in : q.head < qsize
  pub tail_in : q.tail < qsize

-- The number of messages held.
abbrev pub count : Queue → ℕ
count q = (q.tail + qsize - q.head) % qsize

-- The `n` messages from index `h` on, round the end of the array.
abbrev pub span : List Event → ℕ → ℕ → List Event
span slots h zero = []
span slots h (suc n) = get_or slots h blank ∷ span slots ((h + 1) % qsize) n

abbrev pub contents : Queue → List Event
contents q = span q.slots q.head (count q)

pub length-span : (slots : List Event) (h n : ℕ) → length (span slots h n) ≡ n
length-span slots h zero = refl
length-span slots h (suc n) = ap suc (length-span slots ((h + 1) % qsize) n)

-- A write just behind the span makes it longer by that message.
span-set :
    (slots : List Event) (x : Event) (n h i : ℕ)
    → length slots ≡ qsize
    → h < qsize
    → n < qsize
    → i ≡ (h + n) % qsize
    → span (set slots i x) h (suc n) ≡ span slots h n ++ x ∷ []
span-set slots x zero h i s hh hn e =
    let here : i ≡ h = omega arith in
    rw here (ap (λ y. y ∷ []) (get_or-set_self slots h x blank (omega arith)))
span-set slots x (suc n) h i s hh hn e =
    ap₂ ◌∷◌ (get_or-set_ne slots x blank (omega arith))
      (span-set slots x n ((h + 1) % qsize) i s (omega arith) (omega arith) (omega arith))

-- The code tests `head == tail`, the span matches on its length.
span_head :
    (slots : List Event) (h n : ℕ)
    → n ≢ 0
    → span slots h n ≡ get_or slots h blank ∷ span slots ((h + 1) % qsize) (n - 1)
span_head slots h zero p = absurd (p refl)
span_head slots h (suc n) p = let e : suc n - 1 ≡ n = omega arith in rw e

contents-enqueue :
    (msg : Event) (q : Queue)
    → IsValid q
    → is_full q ≡ false
    → contents (enqueue msg q) ≡ contents q ++ msg ∷ []
contents-enqueue msg q v room =
    let few : count q < capacity = ground arith in
    let grown : count (enqueue msg q) ≡ suc (count q) = ground arith in
    ap (span (set q.slots q.tail msg) q.head) grown
    ∙ span-set q.slots msg (count q) q.head q.tail v.storage v.head_in (omega arith) (omega arith)

is_full_iff : (q : Queue) → IsValid q → is_full q ≡ (length (contents q) == capacity)
is_full_iff q v = ground (arith, length-span q.slots q.head (count q))

enqueue-IsValid : (msg : Event) (q : Queue) → IsValid q → IsValid (enqueue msg q)
enqueue-IsValid msg q v = ground (arith, length-set q.slots q.tail msg)

-- `queue_init` empties the queue and leaves it valid.
pub init_lem : (q : Queue) → length q.slots ≡ qsize → IsValid (init q) × (contents (init q) ≡ [])
unfolding init
init_lem q s = (omega arith, refl)

-- The bounded FIFO: a push is refused at 127 messages, and goes to the end below that.
abbrev pub fifo_push : Event → List Event → Pushing × List Event
fifo_push msg q = if length q == capacity then (waits, q) else (pushed, q ++ msg ∷ [])

abbrev pub fifo_pop : List Event → Option (Event × List Event)
fifo_pop [] = none
fifo_pop (msg ∷ q) = some (msg, q)

abbrev pub on_contents : Option (Event × Queue) → Option (Event × List Event)
on_contents none = none
on_contents (some (msg, q)) = some (msg, contents q)

-- A valid queue behaves as the bounded FIFO of its contents: the first try of `queue_push`, and
-- each try after a wake-up that is no timeout, put the message at the end or wait at 127 messages.
pub push_refines :
    (msg : Event) (q : Queue)
    → IsValid q
    → let (s, q') = push_start msg q in
      let (s', q'') = push_wake false msg q in
      ((s, contents q') ≡ fifo_push msg (contents q))
      × ((s', contents q'') ≡ fifo_push msg (contents q))
      × IsValid q'
      × IsValid q''
unfolding push_start push_wake
push_refines msg q v =
    ground (arith, is_full_iff q v, contents-enqueue msg q v, enqueue-IsValid msg q v)

-- `queue_pop` waits at the empty FIFO only, and otherwise takes the oldest message off it.
pub pop_refines : (q : Queue) → IsValid q → on_contents (pop_start q) ≡ fifo_pop (contents q)
unfolding pop_start
pop_refines q v = elim (Bool-cases (q.head == q.tail)) [
  | inl same ↦ let none_held : count q ≡ 0 = ground arith in rw (same, none_held)
  | inr apart ↦
      let some_held : count q ≢ 0 = ground arith in
      let fewer : ((q.tail + qsize - (q.head + 1) % qsize) % qsize) ≡ count q - 1 = ground arith in
      rw (apart, fewer, span_head q.slots q.head (count q) some_held)
]

pub pop-IsValid :
    (q q' : Queue) (msg : Event) → IsValid q → pop_start q ≡ some (msg, q') → IsValid q'
unfolding pop_start
pop-IsValid q q' msg v e = ground arith

-- A timeout keeps what is queued, room or not.
pub push_wake_timeout :
    (msg : Event) (q : Queue)
    → IsValid q
    → IsValid (push_wake true msg q).1 × (contents (push_wake true msg q).1 ≡ contents q)
unfolding push_wake
push_wake_timeout msg q v = (omega arith, refl)
