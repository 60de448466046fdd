-- ===== src/Ports/Lifetime.antt =====
-- The descriptors of the ports, from the opening to the closing.
use embedded_device_forwarde.Prelude.{
  ℕ, suc, ◌≡◌, refl, ap₂, List, [], ◌∷◌, Option, none, some, if◌then◌else◌, All, arith,
}
use embedded_device_forwarde.Prelude.Int.{ℤ, minus_one, is_negative}
use embedded_device_forwarde.Config.Types.{PortType, PortDef, kind_of}
use embedded_device_forwarde.Ports.Open.{
  Calls, Opening, open_kind, port_open_single, ports_open_all, port_close_single, ports_close_all,
}

-- The descriptor that an opening leaves open: it was obtained and not closed.
abbrev pub left_open : Opening → Option ℤ
left_open o = elim o.closed [ none ↦ o.obtained | some fd ↦ none ]

-- On success the descriptor that is returned is the one left open; on failure none is.
pub NoLeak : Opening → Type 0
NoLeak o = left_open o ≡ (if is_negative o.fd then none else some o.fd)

open_kind-NoLeak : (k : PortType) (c : Calls) → NoLeak (open_kind k c)
unfolding NoLeak open_kind
open_kind-NoLeak PortType.tty c = ground arith
open_kind-NoLeak PortType.tcp_server c = ground arith
open_kind-NoLeak PortType.tcp_client c = ground arith
open_kind-NoLeak PortType.udp c = ground arith
open_kind-NoLeak PortType.usb c = ground arith
open_kind-NoLeak PortType.ipc_server c = ground arith
open_kind-NoLeak PortType.ipc_client c = refl

abbrev pub all_left_open : List Opening → List (Option ℤ)
all_left_open [] = []
all_left_open (o ∷ os) = left_open o ∷ all_left_open os

-- A port that has not been opened has fd -1.
abbrev pub Unopened : PortDef → Type 0
Unopened p = p.fd ≡ minus_one

close-open :
    (c : Calls) (p : PortDef)
    → Unopened p
    → (port_close_single (port_open_single c p).1).1 ≡ left_open (port_open_single c p).0
unfolding port_close_single port_open_single NoLeak
close-open c p e = ground (arith, open_kind-NoLeak (kind_of p.conf) c)

close-Unopened :
    (c : Calls) (p : PortDef) → Unopened p → Unopened (port_close_single (port_open_single c p).1).0
unfolding port_close_single port_open_single
close-Unopened c p e = ground arith

-- If every port has fd -1 before: closing all ports after opening them all closes exactly the
-- descriptors that the opening has left open, port by port, whatever the system calls returned, and
-- leaves every port unopened. load_config leaves fd 0 on a tty port without a `tty` object, which is
-- outside the condition.
pub ports_close_all-ports_open_all :
    (sys : ℕ → Calls) (i : ℕ) (ps : List PortDef)
    → All Unopened ps
    → (let opened = ports_open_all sys i ps in
        let closed = ports_close_all opened.1 in
        (closed.1 ≡ all_left_open opened.0) × All Unopened closed.0)
unfolding ports_open_all ports_close_all
ports_close_all-ports_open_all sys i [] h = (refl, tt)
ports_close_all-ports_open_all sys i (p ∷ ps) h =
    let rest = ports_close_all-ports_open_all sys (suc i) ps h.1 in
    (ap₂ (λ x xs. x ∷ xs) (close-open (sys i) p h.0) rest.0, (close-Unopened (sys i) p h.0, rest.1))
