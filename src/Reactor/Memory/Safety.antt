-- ===== src/Reactor/Memory/Safety.antt =====
-- Which events make the reactor misuse memory, and what the others do to the table.
use embedded_device_forwarde.Prelude.{
  ℕ, ◌≡◌, refl, ap, ◌∙◌, List, [], ◌∷◌, false, Option, none, some, ◌⊎◌, inl, inr,
}
use embedded_device_forwarde.Prelude.Int.{is_negative}
use embedded_device_forwarde.Prelude.Text.{Text}
use embedded_device_forwarde.Config.Types.{Port, PortType, Route}
use embedded_device_forwarde.Ports.Table.{Slot}
use embedded_device_forwarde.Reactor.Route.{Handler}
use embedded_device_forwarde.Reactor.Turn.{on_read, turn}
use embedded_device_forwarde.Reactor.Memory.{Memory, on_end, PtrEvent, serve, on_event}
use embedded_device_forwarde.Reactor.Memory.Invariant.{IsSound}
use embedded_device_forwarde.Reactor.Memory.Events.{
  slots_of, IsPossible, Becomes, IsWrongFree, on_connect-Becomes, on_end-Becomes,
}

module _ (handlers : Text → Option Handler) (routes : List Route) where
  -- What Reactor/Turn makes of the event.
  abbrev pub table_after : Port → PtrEvent → List ℕ → Memory → List Slot
  table_after p ev stack m =
      (turn handlers routes p.kind p ev.accepted stack ev.bytes (slots_of m)).table

  read-Becomes :
      (p : Port) (ev : PtrEvent) (stack bytes : List ℕ) (m : Memory)
      → ev.bytes ≡ bytes
      → m.cell ev.ptr ≡ some p
      → m.watched p.fd ≡ some ev.ptr
      → IsSound m
      → IsWrongFree ev m
        ⊎ Becomes m
            (elim bytes [ [] ↦ on_end p m | b ∷ bytes ↦ some m ])
            (on_read handlers routes p stack bytes (slots_of m)).table
  unfolding on_read
  read-Becomes p ev stack [] m e live polled v = elim (on_end-Becomes p ev.ptr m v live polled) [
    | inl (client, listed, (i, at)) ↦ inl (record {
      index = i;
      at = at;
      port = p;
      live = live;
      client = client;
      ended = e;
      listed = listed;
    })
    | inr h ↦ inr h
  ]
  read-Becomes p ev stack (b ∷ bytes) m e live polled v =
      inr (record { after = m; result = refl; sound = v; same = refl; kept = λ i. refl })

  serve-Becomes :
      (kind : PortType) (p : Port) (ev : PtrEvent) (stack : List ℕ) (m : Memory)
      → m.cell ev.ptr ≡ some p
      → m.watched p.fd ≡ some ev.ptr
      → (is_negative ev.accepted ≡ false → m.watched ev.accepted ≡ none)
      → IsSound m
      → IsWrongFree ev m
        ⊎ Becomes m
            (serve kind p ev m)
            (turn handlers routes kind p ev.accepted stack ev.bytes (slots_of m)).table
  unfolding serve turn
  serve-Becomes PortType.tcp_server p ev stack m live polled new v =
      inr (on_connect-Becomes PortType.tcp_client p ev.accepted m v new)
  serve-Becomes PortType.ipc_server p ev stack m live polled new v =
      inr (on_connect-Becomes PortType.ipc_client p ev.accepted m v new)
  serve-Becomes _ p ev stack m live polled new v =
      read-Becomes p ev stack ev.bytes m refl live polled v

  -- An event in a sound memory: a wrong `free`, or the event on the port that it points to.
  pub on_event-cases :
      (ev : PtrEvent) (stack : List ℕ) (m : Memory)
      → IsSound m
      → IsPossible ev m
      → IsWrongFree ev m
        ⊎ ((p : Port) × (m.cell ev.ptr ≡ some p)
            × Becomes m (on_event ev m) (table_after p ev stack m))
  unfolding on_event
  on_event-cases ev stack m v h =
      let at = v.polled h.fd ev.ptr h.ready in
      let p = at.0 in
      let polled : m.watched p.fd ≡ some ev.ptr = ap m.watched at.2 ∙ h.ready in
      elim (serve-Becomes p.kind p ev stack m at.1 polled h.opened v) [
        | inl wrong ↦ inl wrong
        | inr b ↦ inr (
          p,
          at.1,
          record {
            after = b.after;
            result = rw (on_event, at.1) b.result;
            sound = b.sound;
            same = b.same;
            kept = b.kept;
          },
        )
      ]
