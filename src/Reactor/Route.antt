-- ===== src/Reactor/Route.antt =====
-- reactor.c, the forwarding of one packet: each route's handler runs on the one buffer of the
-- thread, its result is clamped, and a copy of the buffer's front goes to the queue.
use embedded_device_forwarde.Prelude.{
  ℕ, ◌+◌, List, [], ◌∷◌, ◌++◌, Option, none, some, take, drop, length, ltb, if◌then◌else◌,
}
use embedded_device_forwarde.Prelude.Int.{ℤ, pos, negsuc}
use embedded_device_forwarde.Prelude.Text.{Text}
use embedded_device_forwarde.Config.Types.{Route}
use embedded_device_forwarde.Config.Lookup.{find_routes_by_src}
use embedded_device_forwarde.EventQueue.Ring.{Event, max_data}

-- `buf` holds 1024 bytes, of which a read fills 1023 at most.
abbrev pub buf_size : ℕ
buf_size = 1024

abbrev pub max_packet_routes : ℕ
max_packet_routes = 16

-- `buf` after a read of these bytes and `buf[len] = 0`; the rest is what the stack held.
abbrev pub after_read : List ℕ → List ℕ → List ℕ
after_read stack bytes = bytes ++ 0 ∷ drop (length bytes + 1) stack

-- `plugin_handler_t`: the buffer, which is rewritten in place, the length, and the result.
abbrev pub Handler : Type 0
Handler = List ℕ → ℕ → List ℕ × ℤ

-- The two tests on a handler's result: a negative one drops the message.
abbrev pub clamp : ℤ → Option ℕ
clamp (pos n) = some (if ltb max_data n then max_data else n)
clamp (negsuc n) = none

abbrev pub message : Route → List ℕ → ℕ → Event
message r buf len = record { dst = r.dst; len = len; bytes = take len buf }

-- One turn of the loop over routes: the buffer after it, and the message that is pushed.
unfoldable pub run_handler : Option Handler → Route → List ℕ → ℕ → List ℕ × Option Event
run_handler none r buf len = (buf, some (message r buf len))
run_handler (some h) r buf len =
    let res = h buf len in
    (res.0, elim (clamp res.1) [ none ↦ none | some n ↦ some (message r res.0 n) ])

abbrev pub cons_some {ℓ} : {A : Type ℓ} → Option A → List A → List A
cons_some none xs = xs
cons_some (some x) xs = x ∷ xs

-- The messages that the loop gives to `queue_push`, where `handlers` is `plugin_get_handler`.
unfoldable pub route_all : (Text → Option Handler) → List Route → List ℕ → ℕ → List Event
unfolding run_handler
route_all handlers [] buf len = []
route_all handlers (r ∷ rs) buf len =
    let res = run_handler (handlers r.handler) r buf len in
    cons_some res.1 (route_all handlers rs res.0 len)

unfoldable pub route_packet : (Text → Option Handler) → List Route → Text → List ℕ → ℕ → List Event
unfolding route_all
route_packet handlers routes name buf len =
    route_all handlers (find_routes_by_src name max_packet_routes routes) buf len
