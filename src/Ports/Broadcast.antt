-- ===== src/Ports/Broadcast.antt =====
-- What the broadcast of `port_send` writes and returns, for the clients that the table has.
use embedded_device_forwarde.Config.Types.{PortType, Port, is_tcp_client}
use embedded_device_forwarde.Prelude.{
  ℕ, ◌+◌, ◌≡◌, refl, ◌∙◌, ap, sym, List, [], ◌∷◌, ◌++◌, none, some, true, false, ◌↔◌, Bool, Option,
  some-injective, subst, ◌&&◌, if◌then◌else◌, length, ◌==◌, arith, append_assoc, append-nil,
  length-append,
}
use embedded_device_forwarde.Prelude.Int.{negsuc, ℤ, pos, minus_one, is_negative}
use embedded_device_forwarde.Prelude.Text.{Text, str_eq, str_eq_iff}
use embedded_device_forwarde.Ports.Table.{Slot}
use embedded_device_forwarde.Ports.Send.{
  Net, write, Tally, count, client_fd, broadcast_loop, verdict, broadcast,
}

-- The slot is used by an accepted connection of that server: a TCP client with its name.
pub record IsClientOf (server : Text) (s : Slot) : Type 0 where
  pub port : Port
  pub used : s.used ≡ true
  pub held : s.port ≡ some port
  pub kind : port.kind ≡ PortType.tcp_client
  pub named : port.name ≡ server

-- These are the fds of the connected clients of a server, each once, in the order of the table.
pub data Clients (server : Text) : List Slot → List ℤ → Type 0 where
  end : Clients server [] []
  client :
      {s : Slot} {ss : List Slot} {fds : List ℤ}
      → (c : IsClientOf server s) → Clients server ss fds
      → Clients server (s ∷ ss) (c.port.fd ∷ fds)
  other :
      {s : Slot} {ss : List Slot} {fds : List ℤ}
      → ¬ IsClientOf server s
      → Clients server ss fds
      → Clients server (s ∷ ss) fds

is_tcp_client_iff : (k : PortType) → (is_tcp_client k ≡ true) ↔ (k ≡ PortType.tcp_client)
is_tcp_client_iff PortType.tcp_client = (λ e. refl, λ e. refl)
is_tcp_client_iff PortType.tty = (λ e. cc, λ e. cc)
is_tcp_client_iff PortType.tcp_server = (λ e. cc, λ e. cc)
is_tcp_client_iff PortType.udp = (λ e. cc, λ e. cc)
is_tcp_client_iff PortType.usb = (λ e. cc, λ e. cc)
is_tcp_client_iff PortType.ipc_server = (λ e. cc, λ e. cc)
is_tcp_client_iff PortType.ipc_client = (λ e. cc, λ e. cc)

-- What the tests of the loop say of a slot.
Tested : Text → Slot → Option ℤ → Type 0
Tested server s none = ¬ IsClientOf server s
Tested server s (some fd) = (c : IsClientOf server s) × (c.port.fd ≡ fd)

port_tests :
    (server : Text) (s : Slot) (p : Port) (kind named : Bool)
    → s.used ≡ true
    → s.port ≡ some p
    → is_tcp_client p.kind ≡ kind
    → str_eq p.name server ≡ named
    → Tested server s (if kind && named then some p.fd else none)
unfolding Tested
port_tests server s p true true u e ek en = (
  record {
    port = p;
    used = u;
    held = e;
    kind = (is_tcp_client_iff p.kind).0 ek;
    named = (str_eq_iff p.name server).0 en;
  },
  refl,
)
port_tests server s p true false u e ek en = λ c.
    absurd (cc (en, (str_eq_iff c.port.name server).1 c.named, some-injective _ _ (sym e ∙ c.held)))
port_tests server s p false named u e ek en = λ c.
    absurd (cc (ek, (is_tcp_client_iff c.port.kind).1 c.kind, some-injective _ _ (sym e ∙ c.held)))

slot_tests :
    (server : Text) (s : Slot) (used : Bool) (o : Option Port)
    → s.used ≡ used
    → s.port ≡ o
    → Tested server s (
        if used
        then elim o [
          | none ↦ none
          | some p ↦ if is_tcp_client p.kind && str_eq p.name server then some p.fd else none
        ]
        else none)
unfolding Tested
slot_tests server s false o u e = λ c. cc (u, c.used)
slot_tests server s true none u e = λ c. cc (e, c.held)
slot_tests server s true (some p) u e =
    port_tests server s p (is_tcp_client p.kind) (str_eq p.name server) u e refl refl

client_fd-Tested : (server : Text) (s : Slot) → Tested server s (client_fd server s)
unfolding client_fd
client_fd-Tested server s = slot_tests server s s.used s.port refl refl

-- The fds that the loop takes.
unfoldable targets : Text → List Slot → List ℤ
targets server [] = []
targets server (s ∷ ss) =
    let rest = targets server ss in elim (client_fd server s) [ none ↦ rest | some fd ↦ fd ∷ rest ]

Clients-cons :
    (server : Text) (s : Slot) (ss : List Slot) (fds : List ℤ) (o : Option ℤ)
    → Tested server s o
    → Clients server ss fds
    → Clients server (s ∷ ss) (elim o [ none ↦ fds | some fd ↦ fd ∷ fds ])
unfolding Tested
Clients-cons server s ss fds none t rest = other t rest
Clients-cons server s ss fds (some fd) t rest =
    subst (λ f. Clients server (s ∷ ss) (f ∷ fds)) t.1 (client t.0 rest)

targets-Clients : (server : Text) (ss : List Slot) → Clients server ss (targets server ss)
unfolding targets
targets-Clients server [] = end
targets-Clients server (s ∷ ss) =
    Clients-cons server s ss (targets server ss) (client_fd server s) (client_fd-Tested server s)
      (targets-Clients server ss)

unfoldable pub each : List ℕ → List ℤ → List (ℤ × List ℕ)
each bytes [] = []
each bytes (fd ∷ fds) = (fd, bytes) ∷ each bytes fds

-- How many of the calls `from`, `from + 1`, ... of `write` fail, of as many as there are fds.
unfoldable pub failures : (ℕ → ℤ) → ℕ → List ℤ → ℕ
failures result from [] = 0
failures result from (fd ∷ fds) =
    (if is_negative (result from) then 1 else 0) + failures result (from + 1) fds

-- The loop on the fds alone.
send_each : List ℕ → List ℤ → Tally → Net → Tally × Net
send_each bytes [] t net = (t, net)
send_each bytes (fd ∷ fds) t net =
    let w = write fd bytes net in send_each bytes fds (count w.0 t) w.1

broadcast_loop-targets :
    (server : Text) (bytes : List ℕ) (ss : List Slot) (t : Tally) (net : Net)
    → broadcast_loop server bytes ss t net ≡ send_each bytes (targets server ss) t net
unfolding broadcast_loop targets send_each
broadcast_loop-targets server bytes [] t net = refl
broadcast_loop-targets server bytes (s ∷ ss) t net =
    elim (client_fd server s)
      as (λ o.
        Path (Tally × Net)
          (elim o [
            | none ↦ broadcast_loop server bytes ss t net
            | some fd ↦
                broadcast_loop server bytes ss (count (write fd bytes net).0 t)
                  (write fd bytes net).1
          ])
          (send_each bytes (elim o [ none ↦ targets server ss | some fd ↦ fd ∷ targets server ss ])
            t net)) [
              | none ↦ broadcast_loop-targets server bytes ss t net
              | some fd ↦
                  broadcast_loop-targets server bytes ss (count (write fd bytes net).0 t)
                    (write fd bytes net).1
            ]

send_each-writes :
    (bytes : List ℕ) (fds : List ℤ) (t : Tally) (net : Net)
    → (send_each bytes fds t net).1.writes ≡ net.writes ++ each bytes fds
unfolding send_each each
send_each-writes bytes [] t net = sym (append-nil net.writes)
send_each-writes bytes (fd ∷ fds) t net =
    let w = write fd bytes net in
    send_each-writes bytes fds (count w.0 t) w.1
    ∙ append_assoc net.writes ((fd, bytes) ∷ []) (each bytes fds)

count-failed :
    (n : ℤ) (t : Tally) → (count n t).failed ≡ t.failed + (if is_negative n then 1 else 0)
count-failed (pos n) t = omega arith
count-failed (negsuc n) t = refl

count-total :
    (n : ℤ) (t : Tally) → (count n t).sent_to + (count n t).failed ≡ t.sent_to + t.failed + 1
count-total (pos n) t = omega arith
count-total (negsuc n) t = omega arith

send_each-tally :
    (bytes : List ℕ) (fds : List ℤ) (t : Tally) (net : Net)
    → ((send_each bytes fds t net).0.failed
        ≡ t.failed + failures net.result (length net.writes) fds)
      × ((send_each bytes fds t net).0.sent_to + (send_each bytes fds t net).0.failed
          ≡ t.sent_to + t.failed + length fds)
unfolding send_each failures
send_each-tally bytes [] t net = (omega arith, omega arith)
send_each-tally bytes (fd ∷ fds) t net =
    let w = write fd bytes net in
    let ih = send_each-tally bytes fds (count w.0 t) w.1 in
    let n = length-append net.writes ((fd, bytes) ∷ []) in
    let f = ap (λ k. failures net.result k fds) n in
    (omega (arith, ih.0, f, count-failed w.0 t), omega (arith, ih.1, count-total w.0 t))

verdict_lem :
    (len n f : ℕ) (t : Tally)
    → t.failed ≡ f
    → t.sent_to + t.failed ≡ n
    → verdict len t ≡ (if n == 0 then pos 0 else if f == n then minus_one else pos len)
verdict_lem len n f t ef en = ground arith

-- The broadcast writes the data once to each connected client of the server, that is, to each used
-- slot's TCP client with the server's name, in the order of the table and whatever the earlier writes
-- returned. It returns 0 if the server has no client, -1 if it has some and every write failed, and
-- the length of the data if a write succeeded.
pub broadcast-writes :
    (server : Text) (bytes : List ℕ) (ss : List Slot) (net : Net)
    → (let after = broadcast server bytes ss net in
        (fds : List ℤ) × Clients server ss fds
        × (after.1.writes ≡ net.writes ++ each bytes fds)
        × (after.0 ≡ (
            if length fds == 0
            then pos 0
            else if failures net.result (length net.writes) fds == length fds
            then minus_one
            else pos (length bytes))))
unfolding broadcast
broadcast-writes server bytes ss net =
    let t : Tally = record { sent_to = 0; failed = 0 } in
    let fds = targets server ss in
    let loop = broadcast_loop-targets server bytes ss t net in
    let e = send_each-tally bytes fds t net in
    (
      fds,
      targets-Clients server ss,
      ap (λ r. r.1.writes) loop ∙ send_each-writes bytes fds t net,
      ap (λ r. verdict (length bytes) r.0) loop
          ∙ verdict_lem (length bytes) (length fds) (failures net.result (length net.writes) fds)
              (send_each bytes fds t net).0 (omega (arith, e.0)) (omega (arith, e.1)),
    )
