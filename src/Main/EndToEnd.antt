-- ===== src/Main/EndToEnd.antt =====
-- A packet from the reactor through the queue to the dispatcher and out on the ports.
use embedded_device_forwarde.Prelude.{
  ℕ, zero, suc, length-append, ◌+◌, ◌≤◌, ◌≡◌, refl, ◌∙◌, ap, sym, subst, List, [], ◌∷◌, ◌++◌,
  append-nil, append_assoc, length, length-take, take, drop, take-length, All, arith, Option,
}
use embedded_device_forwarde.Prelude.Text.{Text}
use embedded_device_forwarde.Config.Types.{Route}
use embedded_device_forwarde.Config.Lookup.{from_src}
use embedded_device_forwarde.EventQueue.Ring.{Event, Queue, push_start, pushed}
use embedded_device_forwarde.EventQueue.Fifo.{IsValid, contents, capacity, fifo_push, push_refines}
use embedded_device_forwarde.Ports.Table.{Slot}
use embedded_device_forwarde.Ports.Send.{Net}
use embedded_device_forwarde.Reactor.Route.{Handler, after_read, route_packet, max_packet_routes}
use embedded_device_forwarde.Reactor.Forward.{Plain, copies, route_packet-Plain}
use embedded_device_forwarde.Main.Dispatcher.{
  dispatcher_thread, handle_all, Handled, dispatcher_thread-Handled,
}

-- The calls of `queue_push` for these messages, where there is room.
unfoldable pub push_all : List Event → Queue → Queue
push_all [] q = q
push_all (msg ∷ msgs) q = push_all msgs (push_start msg q).1

fifo_push-room :
    (msg : Event) (held : List Event)
    → suc (length held) ≤ capacity
    → fifo_push msg held ≡ (pushed, held ++ msg ∷ [])
fifo_push-room msg held room = ground arith

pushed-contents :
    (msg : Event) (q : Queue)
    → IsValid q
    → suc (length (contents q)) ≤ capacity
    → contents (push_start msg q).1 ≡ contents q ++ msg ∷ []
pushed-contents msg q v room =
    ap (λ r. r.1) ((push_refines msg q v).0 ∙ fifo_push-room msg (contents q) room)

push_all-contents :
    (msgs : List Event) (q : Queue)
    → IsValid q
    → length (contents q) + length msgs ≤ capacity
    → IsValid (push_all msgs q) × (contents (push_all msgs q) ≡ contents q ++ msgs)
unfolding push_all
push_all-contents [] q v room = (v, sym (append-nil (contents q)))
push_all-contents (msg ∷ msgs) q v room =
    let c = pushed-contents msg q v (omega arith) in
    let grown = ap length c ∙ length-append (contents q) (msg ∷ []) in
    let rest =
      push_all-contents msgs (push_start msg q).1 (push_refines msg q v).2 (omega (arith, grown)) in
    (rest.0, rest.1 ∙ ap (λ l. l ++ msgs) c ∙ append_assoc (contents q) (msg ∷ []) msgs)

length-copies : (bytes : List ℕ) (rs : List Route) → length (copies bytes rs) ≡ length rs
unfolding copies
length-copies bytes [] = refl
length-copies bytes (r ∷ rs) = ap suc (length-copies bytes rs)

drop_all : (n : ℕ) (msgs : List Event) → length msgs ≤ n → drop n msgs ≡ []
drop_all zero [] h = refl
drop_all zero (msg ∷ msgs) h = absurd (omega arith)
drop_all (suc n) [] h = refl
drop_all (suc n) (msg ∷ msgs) h = drop_all n msgs (omega arith)

-- These messages, once pushed, have been handled as the others are, and none is left.
Done : ℕ → List Slot → Queue → Net → List Event → List Event → Type 0
Done rounds ss q net evs packet =
    let after = dispatcher_thread rounds ss (push_all packet q) net in
    (contents after.0 ≡ []) × (after.1 ≡ handle_all evs ss net)

-- A packet on routes without plugins, read while the queue is valid and empty, is handled for each of the
-- first 16 routes of its port, in their order and with the bytes that were read, once the dispatcher
-- thread has run 16 rounds or more; nothing of it is left in the queue then.
pub packet-Handled :
    (handlers : Text → Option Handler) (routes : List Route) (name : Text) (stack bytes : List ℕ)
    → (q : Queue) (ss : List Slot) (net : Net) (rounds : ℕ)
    → All (Plain handlers) (from_src name routes)
    → IsValid q
    → contents q ≡ []
    → max_packet_routes ≤ rounds
    → (let packet = route_packet handlers routes name (after_read stack bytes) (length bytes) in
        let after = dispatcher_thread rounds ss (push_all packet q) net in
        (contents after.0 ≡ [])
        × (after.1
            ≡ handle_all (copies bytes (take max_packet_routes (from_src name routes))) ss net))
unfolding Done Handled
packet-Handled handlers routes name stack bytes q ss net rounds plain v empty enough =
    let evs = copies bytes (take max_packet_routes (from_src name routes)) in
    let few : length evs ≤ max_packet_routes = omega (
      arith,
      length-copies bytes (take max_packet_routes (from_src name routes)),
      length-take max_packet_routes (from_src name routes),
    ) in
    let filled = push_all-contents evs q v (omega (arith, ap length empty)) in
    let held = filled.1 ∙ ap (λ l. l ++ evs) empty in
    let done =
      subst (λ l. Handled rounds ss l net (dispatcher_thread rounds ss (push_all evs q) net)) held
        (dispatcher_thread-Handled rounds ss (push_all evs q) net filled.0) in
    subst (Done rounds ss q net evs)
      (sym (route_packet-Plain handlers routes name stack bytes plain))
      (
        done.0 ∙ drop_all rounds evs (omega arith),
        done.1 ∙ ap (λ l. handle_all l ss net) (take-length rounds evs (omega arith)),
      )
