-- ===== src/Reactor/Memory/Run.antt =====
-- The reactor at work on the ports of a configuration, event after event.
use mathlib.Core.Option
use embedded_device_forwarde.Prelude.{
  some-injective, suc, ℕ, zero, suc, ◌≡◌, ◌↔◌, refl, ap, sym, ◌∙◌, subst, List, [], ◌∷◌, true,
  false, Option, none, some, All, get_elem?, inl, inr,
}
use embedded_device_forwarde.Prelude.Text.{Text}
use embedded_device_forwarde.Config.Types.{PortType, Port, PortDef, Route, base, is_client}
use embedded_device_forwarde.Reactor.Route.{Handler}
use embedded_device_forwarde.Reactor.Memory.{
  static, Memory, config_cell, PtrEvent, free, pointer_of, on_end, serve, on_event, started,
}
use embedded_device_forwarde.Reactor.Memory.Invariant.{IsSound}
use embedded_device_forwarde.Reactor.Memory.Events.{IsPossible, IsWrongFree, Becomes}
use embedded_device_forwarde.Reactor.Memory.Safety.{table_after, on_event-cases}
use embedded_device_forwarde.Reactor.Memory.Start.{OwnFds, started-IsStarted}

-- The memories after events that the system can give, each served without a fault.
pub data Served (defs : List PortDef) : Memory → Type 0 where
  begin : {m : Memory} → started defs ≡ some m → Served defs m
  next :
      {m u : Memory} (ev : PtrEvent)
      → Served defs m
      → IsPossible ev m
      → on_event ev m ≡ some u
      → Served defs u

serve-wrong :
    (kind : PortType) (p : Port) (ev : PtrEvent) (m : Memory)
    → is_client kind ≡ true
    → is_client p.kind ≡ true
    → ev.bytes ≡ []
    → (i : ℕ) → pointer_of p.fd m.table ≡ some (static i)
    → serve kind p ev m ≡ none
unfolding serve on_end free
serve-wrong PortType.tcp_client p ev m c k ended i listed = rw (ended, k, listed) refl
serve-wrong PortType.ipc_client p ev m c k ended i listed = rw (ended, k, listed) refl
serve-wrong PortType.tty p ev m c k ended i listed = absurd (cc c)
serve-wrong PortType.usb p ev m c k ended i listed = absurd (cc c)
serve-wrong PortType.udp p ev m c k ended i listed = absurd (cc c)
serve-wrong PortType.tcp_server p ev m c k ended i listed = absurd (cc c)
serve-wrong PortType.ipc_server p ev m c k ended i listed = absurd (cc c)

on_event-wrong : (ev : PtrEvent) (m : Memory) → IsWrongFree ev m → on_event ev m ≡ none
unfolding on_event
on_event-wrong ev m h =
    rw (on_event, h.live)
      (serve-wrong h.port.kind h.port ev m h.client h.client h.ended h.index
        (h.listed ∙ ap some h.at))

-- What holds at each of these memories.
record Running (defs : List PortDef) (m : Memory) : Type 0 where
  sound : IsSound m
  configured : (i : ℕ) → m.cell (static i) ≡ config_cell defs (static i)

Becomes-Running :
    (defs : List PortDef) (m u : Memory) (p : Port) (ev : PtrEvent)
    (handlers : Text → Option Handler)
    → (routes : List Route) (stack : List ℕ) → Running defs m
    → on_event ev m ≡ some u
    → Becomes m (on_event ev m) (table_after handlers routes p ev stack m)
    → Running defs u
Becomes-Running defs m u p ev handlers routes stack v e b =
    subst (Running defs) (some-injective _ _ (sym b.result ∙ e))
      (record { sound = b.sound; configured = λ i. b.kept i ∙ v.configured i })

no_handlers : Text → Option Handler
no_handlers name = none

Served-Running : (defs : List PortDef) {m : Memory} → OwnFds defs → Served defs m → Running defs m
Served-Running defs own (begin e) =
    let s = started-IsStarted defs own in
    subst (Running defs) (some-injective _ _ (sym s.result ∙ e))
      (record { sound = s.sound; configured = s.kept })
Served-Running defs own (next {m} {u} ev r h e) =
    let v = Served-Running defs own r in
    elim (on_event-cases no_handlers [] ev [] m v.sound h) [
      | inl wrong ↦ absurd (cc (on_event-wrong ev m wrong, e))
      | inr (p, live, b) ↦ Becomes-Running defs m u p ev no_handlers [] [] v e b
    ]

pub Served-IsSound : (defs : List PortDef) {m : Memory} → OwnFds defs → Served defs m → IsSound m
Served-IsSound defs own r = (Served-Running defs own r).sound

-- If the open ports have different fds when the reactor starts: however it got to a memory from
-- there, an event that the system can give, from epoll and with an accepted fd that is not open, is
-- a fault exactly if a configured port of a client type, which the table still has, is at its end:
-- the port is an entry of a static array, and is given to `free`. Two tty ports that load_config
-- left at fd 0 are open ports with the same fd, and such a start is outside the condition.
pub on_event_faults_iff :
    (defs : List PortDef) (m : Memory) (ev : PtrEvent)
    → OwnFds defs
    → Served defs m
    → IsPossible ev m
    → (on_event ev m ≡ none) ↔ IsWrongFree ev m
on_event_faults_iff defs m ev own r h = (
  λ e. elim (on_event-cases no_handlers [] ev [] m (Served-Running defs own r).sound h) [
    | inl wrong ↦ wrong
    | inr (p, live, b) ↦ absurd (cc (e, b.result))
  ],
  on_event-wrong ev m,
)

-- If the open ports have different fds when the reactor starts, and none of the configured ports is a
-- client: the reactor never uses a port that was freed, never
-- frees one twice, and never frees one that `calloc` has not given: each event that the system can give
-- finds a live port, and is served without a fault; and the table, with the ports in place of the
-- pointers, is then what Reactor/Turn makes of the event on that port and of the table before. The
-- events are those that the system can give: from epoll, with an accepted fd that is not open. Two tty
-- ports that load_config left at fd 0 are open ports with the same fd, and outside the condition.
pub on_event-Refines :
    (handlers : Text → Option Handler) (routes : List Route) (stack : List ℕ) (defs : List PortDef)
    → (m : Memory) (ev : PtrEvent) → OwnFds defs
    → All (λ p. is_client (base p).kind ≡ false) defs
    → Served defs m
    → IsPossible ev m
    → (p : Port) × (m.cell ev.ptr ≡ some p)
      × Becomes m (on_event ev m) (table_after handlers routes p ev stack m)
on_event-Refines handlers routes stack defs m ev own clients r h =
    let v = Served-Running defs own r in
    elim (on_event-cases handlers routes ev stack m v.sound h) [
      | inl wrong ↦ absurd (no_client wrong v)
      | inr served ↦ served
    ]
  where
    at_index :
        (ps : List PortDef) (i : ℕ) (p : Port)
        → All (λ q. is_client (base q).kind ≡ false) ps
        → Option.map base (get_elem? ps i) ≡ some p
        → is_client p.kind ≡ false
    at_index [] i p c e = absurd (cc e)
    at_index (q ∷ ps) zero p c e = cc (c.0, e)
    at_index (q ∷ ps) (suc i) p c e = at_index ps i p c.1 e

    no_client : IsWrongFree ev m → ¬ Running defs m
    no_client w v =
        let there : Option.map base (get_elem? defs w.index) ≡ some w.port =
          sym (v.configured w.index) ∙ ap m.cell (sym w.at) ∙ w.live in
        cc (w.client, at_index defs w.index w.port clients there)
