-- ===== src/Main/Dispatcher.antt =====
-- ez_router.c, `dispatcher_thread`: messages are popped and handled, one after the other.
use embedded_device_forwarde.Prelude.{
  ℕ, zero, suc, ◌≡◌, refl, ◌∙◌, ap, sym, List, [], ◌∷◌, Option, none, some, take, drop, subst,
}
use embedded_device_forwarde.EventQueue.Ring.{Event, Queue, pop_start}
use embedded_device_forwarde.EventQueue.Fifo.{
  IsValid, contents, fifo_pop, on_contents, pop_refines, pop-IsValid,
}
use embedded_device_forwarde.Ports.Table.{Slot}
use embedded_device_forwarde.Ports.Send.{Net}
use embedded_device_forwarde.Ports.Router.{handle}

-- The loop for as many rounds as the run flag is set. Where `queue_pop` waits, the thread stays there
-- until a message is pushed; the ports do not change meanwhile.
unfoldable pub dispatcher_thread : ℕ → List Slot → Queue → Net → Queue × Net
dispatcher_thread zero ss q net = (q, net)
dispatcher_thread (suc rounds) ss q net = elim (pop_start q) [
  | none ↦ (q, net)
  | some (msg, q') ↦ dispatcher_thread rounds ss q' (handle msg ss net)
]

-- These messages handled in their order.
unfoldable pub handle_all : List Event → List Slot → Net → Net
handle_all [] ss net = net
handle_all (msg ∷ msgs) ss net = handle_all msgs ss (handle msg ss net)

-- What the rounds have done: they have handled the oldest messages and left the others.
unfoldable pub Handled : ℕ → List Slot → List Event → Net → Queue × Net → Type 0
Handled rounds ss held net after =
    (contents after.0 ≡ drop rounds held) × (after.1 ≡ handle_all (take rounds held) ss net)

-- The FIFO from which a message was popped, or at which the thread waits.
popped :
    (held : List Event) (msg : Event) (rest : List Event)
    → some (msg, rest) ≡ fifo_pop held
    → held ≡ msg ∷ rest
popped [] msg rest e = absurd (cc e)
popped (m ∷ ms) msg rest e = cc e

waiting : (held : List Event) → none ≡ fifo_pop held → held ≡ []
waiting [] e = refl
waiting (m ∷ ms) e = absurd (cc e)

-- After any number of rounds, so many of the oldest messages have been handled, each once and in
-- their order, and the others are still queued; with as many rounds as messages none is left.
pub dispatcher_thread-Handled :
    (rounds : ℕ) (ss : List Slot) (q : Queue) (net : Net)
    → IsValid q
    → Handled rounds ss (contents q) net (dispatcher_thread rounds ss q net)
unfolding dispatcher_thread handle_all Handled
dispatcher_thread-Handled zero ss q net v = (refl, refl)
dispatcher_thread-Handled (suc rounds) ss q net v =
    go (λ q' net' v'. dispatcher_thread-Handled rounds ss q' net' v') (pop_start q) refl
  where
    go :
        ((q' : Queue) (net' : Net)
          → IsValid q'
          → Handled rounds ss (contents q') net' (dispatcher_thread rounds ss q' net'))
        → (o : Option (Event × Queue)) → pop_start q ≡ o
        → Handled (suc rounds) ss (contents q) net (elim o [
          | none ↦ (q, net)
          | some (msg, q') ↦ dispatcher_thread rounds ss q' (handle msg ss net)
        ])
    go ih none e =
        let empty = waiting (contents q) (ap on_contents (sym e) ∙ pop_refines q v) in
        subst (λ held. Handled (suc rounds) ss held net (q, net)) (sym empty) (empty, refl)
    go ih (some (msg, q')) e =
        let oldest =
          popped (contents q) msg (contents q') (ap on_contents (sym e) ∙ pop_refines q v) in
        subst
          (λ held.
            Handled (suc rounds) ss held net (dispatcher_thread rounds ss q' (handle msg ss net)))
          (sym oldest) (ih q' (handle msg ss net) (pop-IsValid q q' msg v e))
