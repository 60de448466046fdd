-- ===== src/Reactor/Examples.antt =====
-- A packet on two routes, and a connection that is accepted.
use embedded_device_forwarde.Prelude.{
  true, ℕ, ◌≡◌, refl, List, [], ◌∷◌, Option, none, replicate, take, All, arith,
}
use embedded_device_forwarde.Prelude.Int.{pos}
use embedded_device_forwarde.Prelude.Text.{Text, codes, str_eq}
use embedded_device_forwarde.Config.Types.{PortType, Port, Route}
use embedded_device_forwarde.Config.Lookup.{from_src}
use embedded_device_forwarde.Ports.Table.{Slot, entry, no_slot, port_find, pick}
use embedded_device_forwarde.Ports.Add.{has_free}
use embedded_device_forwarde.Reactor.Route.{
  Handler, after_read, route_packet, max_packet_routes, buf_size,
}
use embedded_device_forwarde.Reactor.Loop.{reactor_thread}
use embedded_device_forwarde.Reactor.Forward.{Plain, copies, route_packet-Plain}
use embedded_device_forwarde.Reactor.Turn.{turn}
use embedded_device_forwarde.Reactor.Session.{Read, session, client_of, Same, packets, session-Same}
use embedded_device_forwarde.Reactor.Accept.{Reachable, turn-Reachable}

abbrev to : Text → Text → Route
to dst handler = record { src = codes "uart"; dst = dst; plugin = []; handler = handler }

abbrev table : List Route
table = to (codes "host") [] ∷ to (codes "log") [] ∷ []

abbrev plain : Text → Option Handler
plain name = none

-- The bytes on the stack, of which only their number matters.
abbrev noise : List ℕ
noise = replicate buf_size 170

two_copies :
    route_packet plain table (codes "uart") (after_read noise (codes "hi")) 2
    ≡ copies (codes "hi") table
unfolding route_packet embedded_device_forwarde.Reactor.Route.route_all
    embedded_device_forwarde.Reactor.Route.run_handler copies
    embedded_device_forwarde.Config.Lookup.find_routes_by_src
    embedded_device_forwarde.Config.Lookup.find_from str_eq
two_copies = refl

abbrev host : Port
host = record { name = codes "host"; kind = PortType.ipc_server; fd = pos 5 }

abbrev ports : List Slot
ports = entry host ∷ no_slot ∷ []

routes-Plain : All (Plain plain) (from_src (codes "uart") table)
unfolding from_src str_eq
routes-Plain = (refl, (refl, tt))

route_packet-Plain_example :
    route_packet plain table (codes "uart") (after_read noise (codes "hi")) 2
    ≡ copies (codes "hi") (take max_packet_routes (from_src (codes "uart") table))
route_packet-Plain_example =
    route_packet-Plain plain table (codes "uart") noise (codes "hi") routes-Plain

one_free : has_free ports ≡ true
unfolding has_free
one_free = refl

no_host : port_find (codes "host") ports ≡ none
unfolding port_find pick str_eq
no_host = refl

turn-Reachable_example :
    Reachable
      (codes "host")
      (pos 9)
      (turn plain table PortType.ipc_server host (pos 9) noise [] ports)
turn-Reachable_example =
    turn-Reachable plain table PortType.ipc_server host (pos 9) noise [] ports refl refl
      (omega arith) one_free no_host

abbrev one_hello : List Read
one_hello = record { first = 104; others = codes "i"; stack = noise } ∷ []

session-Same_example :
    let r = reactor_thread plain table (session host (pos 9) one_hello) ports in
    Same ports r.0 × (r.1 ≡ packets plain table (client_of host (pos 9)).name one_hello)
session-Same_example =
    session-Same plain table host (pos 9) one_hello ports refl refl (refl, (refl, tt))
