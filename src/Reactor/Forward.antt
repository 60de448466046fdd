-- ===== src/Reactor/Forward.antt =====
-- What a packet becomes on routes without a plugin.
use embedded_device_forwarde.Prelude.{
  ℕ, ◌+◌, ◌≡◌, refl, ◌∙◌, ap, ap₂, List, [], ◌∷◌, ◌++◌, Option, none, take, drop, length, All,
  All-take, arith, take-append_of_le, take-length,
}
use embedded_device_forwarde.Prelude.Text.{Text}
use embedded_device_forwarde.Config.Types.{Route}
use embedded_device_forwarde.Config.Lookup.{from_src, find_routes_by_src_lem}
use embedded_device_forwarde.EventQueue.Ring.{Event}
use embedded_device_forwarde.Reactor.Route.{
  Handler, after_read, run_handler, cons_some, route_all, route_packet, max_packet_routes,
}

-- One message with these bytes for each route, to its destination.
unfoldable pub copies : List ℕ → List Route → List Event
copies bytes [] = []
copies bytes (r ∷ rs) = record { dst = r.dst; len = length bytes; bytes = bytes } ∷ copies bytes rs

abbrev pub Plain : (Text → Option Handler) → Route → Type 0
Plain handlers r = handlers r.handler ≡ none

take-length-append : (xs ys : List ℕ) → take (length xs) (xs ++ ys) ≡ xs
take-length-append xs ys =
    take-append_of_le (length xs) xs ys (omega arith) ∙ take-length (length xs) xs (omega arith)

route_all-Plain :
    (handlers : Text → Option Handler) (rs : List Route) (bytes rest : List ℕ)
    → All (Plain handlers) rs
    → route_all handlers rs (bytes ++ rest) (length bytes) ≡ copies bytes rs
unfolding route_all run_handler copies
route_all-Plain handlers [] bytes rest h = refl
route_all-Plain handlers (r ∷ rs) bytes rest h =
    let len = length bytes in
    let buf = bytes ++ rest in
    ap
      (λ o.
        cons_some (run_handler o r buf len).1
          (route_all handlers rs (run_handler o r buf len).0 len))
      h.0
    ∙ ap₂ (λ b evs. record { dst = r.dst; len = len; bytes = b } ∷ evs)
        (take-length-append bytes rest) (route_all-Plain handlers rs bytes rest h.1)

-- A packet from a port whose routes have no plugin is given to the queue once for each route from
-- that port, in the order of the configuration, for the first 16 of them: each message has the
-- route's destination and the bytes that were read, whatever else the buffer held.
pub route_packet-Plain :
    (handlers : Text → Option Handler) (routes : List Route) (name : Text) (stack bytes : List ℕ)
    → All (Plain handlers) (from_src name routes)
    → route_packet handlers routes name (after_read stack bytes) (length bytes)
      ≡ copies bytes (take max_packet_routes (from_src name routes))
unfolding route_packet
route_packet-Plain handlers routes name stack bytes h =
    ap (λ rs. route_all handlers rs (after_read stack bytes) (length bytes))
      (find_routes_by_src_lem name max_packet_routes routes)
    ∙ route_all-Plain handlers (take max_packet_routes (from_src name routes)) bytes
        (0 ∷ drop (length bytes + 1) stack)
        (All-take (Plain handlers) max_packet_routes (from_src name routes) h)
