-- ===== src/Reactor/Bounds.antt =====
-- The length of the reactor's messages, over any plugins.
use embedded_device_forwarde.Prelude.{
  take, ℕ, ◌≤◌, ◌<◌, ◌≡◌, refl, ◌∙◌, List, [], ◌∷◌, Option, none, some, length, length-take, ltb,
  if◌then◌else◌, All, arith,
}
use embedded_device_forwarde.Prelude.Int.{ℤ, pos, negsuc}
use embedded_device_forwarde.Prelude.Text.{Text}
use embedded_device_forwarde.Config.Types.{Route}
use embedded_device_forwarde.Config.Lookup.{find_routes_by_src}
use embedded_device_forwarde.EventQueue.Ring.{Event, max_data}
use embedded_device_forwarde.Reactor.Route.{
  Handler, buf_size, clamp, message, run_handler, cons_some, route_all, route_packet,
  max_packet_routes,
}

-- The length of a message is within `data`, and it has that many bytes.
pub Fits : Event → Type 0
Fits ev = (ev.len ≤ max_data) × (length ev.bytes ≡ ev.len)

-- The data that are sent of a message.
pub length-take-Fits : (msg : Event) → Fits msg → length (take msg.len msg.bytes) ≤ max_data
unfolding Fits
length-take-Fits msg h = omega (arith, length-take msg.len msg.bytes)

-- The handler writes within the buffer, if the length is below its size: it rewrites bytes of it,
-- and it has as many as before.
abbrev pub KeepsSize : Handler → Type 0
KeepsSize h = (buf : List ℕ) (len : ℕ) → len < length buf → length (h buf len).0 ≡ length buf

abbrev pub Keeps : (Text → Option Handler) → Type 0
Keeps handlers = (name : Text) (h : Handler) → handlers name ≡ some h → KeepsSize h

message-Fits :
    (r : Route) (buf : List ℕ) (n : ℕ)
    → length buf ≡ buf_size
    → n ≤ max_data
    → Fits (message r buf n)
unfolding Fits
message-Fits r buf n e h = (h, length-take n buf ∙ omega arith)

clamped-Fits :
    (z : ℤ) (r : Route) (buf : List ℕ) (evs : List Event)
    → length buf ≡ buf_size
    → All Fits evs
    → All Fits (cons_some (elim (clamp z) [ none ↦ none | some n ↦ some (message r buf n) ]) evs)
clamped-Fits (pos n) r buf evs e h =
    (message-Fits r buf (if ltb max_data n then max_data else n) e (ground arith), h)
clamped-Fits (negsuc n) r buf evs e h = h

route_all-Fits :
    (handlers : Text → Option Handler) (rs : List Route) (buf : List ℕ) (len : ℕ)
    → Keeps handlers
    → length buf ≡ buf_size
    → len < buf_size
    → All Fits (route_all handlers rs buf len)
unfolding route_all run_handler
route_all-Fits handlers [] buf len k e h = tt
route_all-Fits handlers (r ∷ rs) buf len k e h =
    go (λ buf' e'. route_all-Fits handlers rs buf' len k e' h) (handlers r.handler) refl
  where
    go :
        ((buf' : List ℕ) → length buf' ≡ buf_size → All Fits (route_all handlers rs buf' len))
        → (o : Option Handler) → handlers r.handler ≡ o
        → All Fits (
            cons_some
              (run_handler o r buf len).1
              (route_all handlers rs (run_handler o r buf len).0 len))
    go rest none eo = (message-Fits r buf len e (omega arith), rest buf e)
    go rest (some g) eo =
        let same = k r.handler g eo buf len (omega arith) ∙ e in
        clamped-Fits (g buf len).1 r (g buf len).0 (route_all handlers rs (g buf len).0 len) same
          (rest (g buf len).0 same)

-- Every message that a packet gives rise to has a length of 1024 at most, and as many bytes, if
-- the handlers write within the buffer; nothing is asked of what they return.
pub route_packet-Fits :
    (handlers : Text → Option Handler) (routes : List Route) (name : Text) (buf : List ℕ) (len : ℕ)
    → Keeps handlers
    → length buf ≡ buf_size
    → len < buf_size
    → All Fits (route_packet handlers routes name buf len)
unfolding route_packet
route_packet-Fits handlers routes name buf len k e h =
    route_all-Fits handlers (find_routes_by_src name max_packet_routes routes) buf len k e h
