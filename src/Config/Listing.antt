-- ===== src/Config/Listing.antt =====
-- That `config_print` shows all of the configuration: a reader of its lines, and the round trip.
use embedded_device_forwarde.Prelude.{
  ℕ, zero, suc, ◌≡◌, refl, ap, ◌∙◌, List, [], ◌∷◌, ◌++◌, append_assoc, Bool, true, false, length,
  get_or, drop, if◌then◌else◌, ◌==◌,
}
use embedded_device_forwarde.Prelude.Int.{ℤ, pos, negsuc}
use embedded_device_forwarde.Prelude.Text.{Text, codes, str_eq}
use embedded_device_forwarde.Config.Types.{
  Conf, tty_conf, tcp_server_conf, tcp_client_conf, udp_conf, usb_conf, ipc_conf, PortDef,
  PluginDef, Route, Config,
}
use embedded_device_forwarde.Config.Dump.{
  Arg, string, number, Line, plain, with_number, print_conf, print_port, print_plugin, print_route,
  print_from, config_print,
}

-- The argument of a line.
abbrev string_of : List Arg → Text
string_of (string t ∷ args) = t
string_of _ = []

abbrev number_of : List Arg → ℤ
number_of (number n ∷ args) = n
number_of _ = pos 0

abbrev blank : Line
blank = plain []

-- Of the n-th line.
abbrev text_at : ℕ → List Line → Text
text_at n l = string_of (get_or l n blank).args

abbrev int_at : ℕ → List Line → ℤ
int_at n l = number_of (get_or l n blank).args

abbrev nat : ℤ → ℕ
nat (pos n) = n
nat (negsuc n) = 0

-- What is read, and the lines behind it.
abbrev Reader : Type 0 → Type 0
Reader A = List Line → A × List Line

unfoldable read_conf : Reader Conf
read_conf l =
    let kind = (get_or l 0 blank).format in
    if str_eq kind (codes "tty\n")
    then (
      tty_conf (record {
        path = text_at 1 l;
        baudrate = int_at 2 l;
        databits = int_at 3 l;
        stopbits = int_at 4 l;
        parity = nat (int_at 5 l);
        flow = nat (int_at 6 l);
      }),
      drop 7 l,
    )
    else if str_eq kind (codes "tcp_server\n")
    then (tcp_server_conf (text_at 1 l) (int_at 2 l) (int_at 3 l), drop 4 l)
    else if str_eq kind (codes "tcp_client\n")
    then (tcp_client_conf (text_at 1 l) (int_at 2 l), drop 3 l)
    else if str_eq kind (codes "udp\n")
    then (udp_conf (text_at 1 l) (int_at 2 l), drop 3 l)
    else if str_eq kind (codes "usb\n")
    then (usb_conf (text_at 1 l), drop 2 l)
    else (ipc_conf (text_at 1 l), drop 2 l)

abbrev port_with : List Line → Conf × List Line → PortDef × List Line
port_with l (conf, rest) = (
  record { name = text_at 1 l; use_frame = nat (int_at 2 l) == 1; conf = conf; fd = int_at 0 rest },
  drop 1 rest,
)

unfoldable read_port : Reader PortDef
read_port l = port_with l (read_conf (drop 4 l))

unfoldable read_plugin : Reader PluginDef
read_plugin l = (record { name = text_at 1 l; path = text_at 2 l }, drop 3 l)

unfoldable read_route : Reader Route
read_route l = (
  record { src = text_at 1 l; dst = text_at 2 l; plugin = text_at 3 l; handler = text_at 4 l },
  drop 5 l,
)

-- As many as the line before them says.
unfoldable read_many : {A : Type 0} → Reader A → ℕ → Reader (List A)
read_many read zero l = ([], l)
read_many read (suc n) l =
    let first = read l in let others = read_many read n first.1 in (first.0 ∷ others.0, others.1)

unfoldable read_table : {A : Type 0} → Reader A → Reader (List A)
read_table read l = read_many read (nat (int_at 0 l)) (drop 1 l)

-- The configuration that is listed.
pub read_listing : List Line → Config
unfolding read_table read_port read_plugin read_route
read_listing l =
    let ports = read_table read_port (drop 1 l) in
    let plugins = read_table read_plugin ports.1 in
    let routes = read_table read_route plugins.1 in
    record { ports = ports.0; plugins = plugins.0; routes = routes.0 }

read_conf-print_conf : (c : Conf) (rest : List Line) → read_conf (print_conf c ++ rest) ≡ (c, rest)
unfolding read_conf str_eq
read_conf-print_conf (tty_conf t) rest = refl
read_conf-print_conf (tcp_server_conf addr port backlog) rest = refl
read_conf-print_conf (tcp_client_conf addr port) rest = refl
read_conf-print_conf (udp_conf addr port) rest = refl
read_conf-print_conf (usb_conf path) rest = refl
read_conf-print_conf (ipc_conf path) rest = refl

flag : (b : Bool) → (nat (pos (if b then 1 else 0)) == 1) ≡ b
flag true = refl
flag false = refl

read_port-print_port :
    (i : ℕ) (p : PortDef) (rest : List Line) → read_port (print_port i p ++ rest) ≡ (p, rest)
unfolding read_port
read_port-print_port i p rest =
    let fd_line = with_number (codes "    fd : %d\n") p.fd in
    ap (port_with (print_port i p ++ rest)) (
      ap read_conf (append_assoc (print_conf p.conf) (fd_line ∷ []) rest)
      ∙ read_conf-print_conf p.conf (fd_line ∷ rest))
    ∙ ap (λ b. (record { name = p.name; use_frame = b; conf = p.conf; fd = p.fd }, rest))
        (flag p.use_frame)

read_plugin-print_plugin :
    (i : ℕ) (p : PluginDef) (rest : List Line) → read_plugin (print_plugin i p ++ rest) ≡ (p, rest)
unfolding read_plugin
read_plugin-print_plugin i p rest = refl

read_route-print_route :
    (i : ℕ) (r : Route) (rest : List Line) → read_route (print_route i r ++ rest) ≡ (r, rest)
unfolding read_route
read_route-print_route i r rest = refl

module _ {A : Type 0} (print : ℕ → A → List Line) (read : Reader A) where
  read_many-print_from :
      ((i : ℕ) (a : A) (rest : List Line) → read (print i a ++ rest) ≡ (a, rest))
      → (l : List A) (i : ℕ) (rest : List Line)
      → read_many read (length l) (print_from print i l ++ rest) ≡ (l, rest)
  unfolding read_many print_from
  read_many-print_from h [] i rest = refl
  read_many-print_from h (a ∷ l) i rest =
      let after = print_from print (suc i) l ++ rest in
      ap
        (λ x.
          let first = read x in
          let others = read_many read (length l) first.1 in (first.0 ∷ others.0, others.1))
        (append_assoc (print i a) (print_from print (suc i) l) rest)
      ∙ ap
          (λ (first : A × List Line).
            let others = read_many read (length l) first.1 in (first.0 ∷ others.0, others.1))
          (h i a after)
      ∙ ap (λ (others : List A × List Line). (a ∷ others.0, others.1))
          (read_many-print_from h l (suc i) rest)

-- The three tables, from what is read for the first, for the second and for the third.
abbrev from_routes : List PortDef → List PluginDef → List Route × List Line → Config
from_routes ports plugins routes = record { ports = ports; plugins = plugins; routes = routes.0 }

abbrev from_plugins : List PortDef → List PluginDef × List Line → Config
from_plugins ports plugins = from_routes ports plugins.0 (read_table read_route plugins.1)

abbrev from_ports : List PortDef × List Line → Config
from_ports ports = from_plugins ports.0 (read_table read_plugin ports.1)

-- `config_print` shows all of the configuration: from the lines that it logs, the configuration can be
-- read back, whatever it is, with every field of every port, plugin and route, in order.
pub read_listing-config_print : (c : Config) → read_listing (config_print c) ≡ c
unfolding read_listing config_print read_table
read_listing-config_print c =
    let end = plain (codes "\n=============================================\n\n") ∷ [] in
    let routes =
      with_number (codes "\n[ROUTES] count = %d\n") (pos (length c.routes))
      ∷ print_from print_route 0 c.routes in
    let plugins =
      with_number (codes "\n[PLUGINS] count = %d\n") (pos (length c.plugins))
      ∷ print_from print_plugin 0 c.plugins in
    ap from_ports (
      read_many-print_from print_port read_port read_port-print_port c.ports 0
        (plugins ++ (routes ++ end)))
    ∙ ap (from_plugins c.ports) (
        read_many-print_from print_plugin read_plugin read_plugin-print_plugin c.plugins 0
          (routes ++ end))
    ∙ ap (from_routes c.ports c.plugins)
        (read_many-print_from print_route read_route read_route-print_route c.routes 0 end)
