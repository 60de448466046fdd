-- ===== src/Config/Dump.antt =====
-- config_store.c: `config_print`. A line is a call of LOG_INFO with its format and its arguments,
-- whose rendering is the C library's.
use embedded_device_forwarde.Prelude.{ℕ, suc, List, [], ◌∷◌, ◌++◌, length, if◌then◌else◌}
use embedded_device_forwarde.Prelude.Int.{ℤ, pos}
use embedded_device_forwarde.Prelude.Text.{Text, codes}
use embedded_device_forwarde.Config.Types.{
  Conf, tty_conf, tcp_server_conf, tcp_client_conf, udp_conf, usb_conf, ipc_conf, PortDef,
  PluginDef, Route, Config,
}

-- The argument for a conversion %s or %d.
pub data Arg : Type 0 where
  string : Text → Arg
  number : ℤ → Arg

pub record Line : Type 0 where
  pub format : Text
  pub args : List Arg

abbrev pub plain : Text → Line
plain format = record { format = format; args = [] }

abbrev pub with_string : Text → Text → Line
with_string format t = record { format = format; args = string t ∷ [] }

abbrev pub with_number : Text → ℤ → Line
with_number format n = record { format = format; args = number n ∷ [] }

-- The `switch` over the type.
abbrev pub print_conf : Conf → List Line
print_conf (tty_conf t) =
    plain (codes "tty\n")
    ∷ with_string (codes "      path      : %s\n") t.path
    ∷ with_number (codes "      baudrate  : %d\n") t.baudrate
    ∷ with_number (codes "      databits  : %d\n") t.databits
    ∷ with_number (codes "      stopbits  : %d\n") t.stopbits
    ∷ with_number (codes "      parity    : %d\n") (pos t.parity)
    ∷ with_number (codes "      flow      : %d\n") (pos t.flow)
    ∷ []
print_conf (tcp_server_conf addr port backlog) =
    plain (codes "tcp_server\n")
    ∷ with_string (codes "      bind      : %s\n") addr
    ∷ with_number (codes "      port      : %d\n") port
    ∷ with_number (codes "      backlog   : %d\n") backlog
    ∷ []
print_conf (tcp_client_conf addr port) =
    plain (codes "tcp_client\n")
    ∷ with_string (codes "      addr      : %s\n") addr
    ∷ with_number (codes "      port      : %d\n") port
    ∷ []
print_conf (udp_conf addr port) =
    plain (codes "udp\n")
    ∷ with_string (codes "      bind      : %s\n") addr
    ∷ with_number (codes "      port      : %d\n") port
    ∷ []
print_conf (usb_conf path) =
    plain (codes "usb\n") ∷ with_string (codes "      path      : %s\n") path ∷ []
print_conf (ipc_conf path) =
    plain (codes "ipc\n") ∷ with_string (codes "      path      : %s\n") path ∷ []

abbrev pub print_port : ℕ → PortDef → List Line
print_port i p =
    (with_number (codes "  [%d]\n") (pos i)
      ∷ with_string (codes "    name : %s\n") p.name
      ∷ with_number (codes "    use_frame: %d\n") (pos (if p.use_frame then 1 else 0))
      ∷ plain (codes "    type : ")
      ∷ print_conf p.conf)
    ++ with_number (codes "    fd : %d\n") p.fd ∷ []

abbrev pub print_plugin : ℕ → PluginDef → List Line
print_plugin i p =
    with_number (codes "  [%d]\n") (pos i)
    ∷ with_string (codes "    name : %s\n") p.name
    ∷ with_string (codes "    path : %s\n") p.path
    ∷ []

abbrev pub print_route : ℕ → Route → List Line
print_route i r =
    with_number (codes "  [%d]\n") (pos i)
    ∷ with_string (codes "    src     : %s\n") r.src
    ∷ with_string (codes "    dst     : %s\n") r.dst
    ∷ with_string (codes "    plugin  : %s\n") r.plugin
    ∷ with_string (codes "    handler : %s\n") r.handler
    ∷ []

-- A loop over the entries of a table, from the i-th on.
unfoldable pub print_from : {A : Type 0} → (ℕ → A → List Line) → ℕ → List A → List Line
print_from print i [] = []
print_from print i (a ∷ l) = print i a ++ print_from print (suc i) l

unfoldable pub config_print : Config → List Line
config_print c =
    let routes =
      (with_number (codes "\n[ROUTES] count = %d\n") (pos (length c.routes))
        ∷ print_from print_route 0 c.routes)
      ++ plain (codes "\n=============================================\n\n") ∷ [] in
    let plugins =
      (with_number (codes "\n[PLUGINS] count = %d\n") (pos (length c.plugins))
        ∷ print_from print_plugin 0 c.plugins)
      ++ routes in
    plain (codes "\n================ CONFIG DUMP ================\n")
    ∷ with_number (codes "\n[PORTS] count = %d\n") (pos (length c.ports))
    ∷ (print_from print_port 0 c.ports ++ plugins)
