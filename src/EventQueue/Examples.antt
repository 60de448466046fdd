-- ===== src/EventQueue/Examples.antt =====
-- Runs of the queue and of the two threads.
use embedded_device_forwarde.Prelude.{
  some, true, List, ◌%◌, ◌≤◌, ◌≡◌, refl, [], ◌∷◌, ◌++◌, arith, length, replicate, set,
}
use embedded_device_forwarde.Prelude.Text.{codes}
use embedded_device_forwarde.EventQueue.Ring.{
  dropped, pushed, Event, blank, qsize, Queue, empty, enqueue, waits, push_start, ulong_mod,
}
use embedded_device_forwarde.EventQueue.Fifo.{IsValid, capacity, contents}
use embedded_device_forwarde.EventQueue.Observe.{
  Operation, push, wake, pop, get_drops, pushing, number, popping, apply, view, specified, answers,
  answers-refines,
}
use embedded_device_forwarde.EventQueue.Threads.{
  Threads, start, push, Reach, here, next, Reach-delivery,
}

abbrev hello : Event
hello = record { dst = codes "UART1"; len = 2; bytes = codes "hi" }

abbrev bye : Event
bye = record { dst = codes "UART2"; len = 3; bytes = codes "bye" }

-- Two messages round the end of the array.
abbrev wrapped : Queue
wrapped = record {
  slots = set (set (replicate qsize blank) 127 hello) 0 bye;
  head = 127;
  tail = 1;
  drops = 3;
}

wrapped-IsValid : IsValid wrapped
wrapped-IsValid = omega arith

contents-wrapped : contents wrapped ≡ hello ∷ bye ∷ []
contents-wrapped = refl

-- A full queue: the push waits.
full_run : (push_start hello (record empty { head = 5; tail = 4 })).0 ≡ waits
unfolding push_start
full_run = refl

-- A push, a wait that times out, and three pops.
abbrev calls : List Operation
calls = push hello ∷ wake true bye ∷ get_drops ∷ pop ∷ pop ∷ pop ∷ []

answers-refines_example : answers apply calls wrapped ≡ answers specified calls (view wrapped)
answers-refines_example = answers-refines calls wrapped wrapped-IsValid

-- The timeout is counted after three others, and the pops give the oldest messages first.
calls_run :
    answers specified calls (view wrapped)
    ≡ pushing pushed
      ∷ pushing dropped
      ∷ number 4
      ∷ popping (some hello)
      ∷ popping (some bye)
      ∷ popping (some hello)
      ∷ []
unfolding answers specified
calls_run = refl

abbrev one_pushed : Threads
one_pushed = record start { queue = enqueue hello empty; accepted = hello ∷ [] }

Reach-one : Reach start one_pushed
unfolding push_start
Reach-one = next here (push hello refl refl)

Reach-delivery_example :
    (one_pushed.accepted ≡ one_pushed.delivered ++ contents one_pushed.queue)
    × (length (contents one_pushed.queue) ≤ capacity)
    × (one_pushed.queue.drops ≡ one_pushed.lost % ulong_mod)
Reach-delivery_example = Reach-delivery one_pushed Reach-one
