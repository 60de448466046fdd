-- ===== src/Config/Settings.antt =====
-- What `load_config` reads back of a port that `save_config` wrote.
use embedded_device_forwarde.Prelude.{
  ℕ, ◌-◌, ◌≡◌, refl, ◌∙◌, ap, List, [], ◌∷◌, Bool, some, take, arith,
}
use embedded_device_forwarde.Prelude.Fallible.{◌>>=◌}
use embedded_device_forwarde.Prelude.Int.{ℤ}
use embedded_device_forwarde.Prelude.Text.{Text, codes, str_eq, str_ieq}
use embedded_device_forwarde.Json.{Cjson}
use embedded_device_forwarde.Json.Build.{Builder, BuildLaws, IsInt, built, find, item-object}
use embedded_device_forwarde.Config.Types.{
  Conf, tty_conf, tcp_server_conf, tcp_client_conf, udp_conf, usb_conf, ipc_conf, PortDef,
  name_size, addr_size, path_size,
}
use embedded_device_forwarde.Config.Parse.{
  zero_conf, get_str, get_int, parse_tty, parse_conf, parse_port, text_or_empty,
}
use embedded_device_forwarde.Config.Bounds.{ShorterThan, ConfFits, PortFits}
use embedded_device_forwarde.Config.Print.{port_node, tty_node}
use embedded_device_forwarde.Config.Reload.{ConfInts, reload_port}
use embedded_device_forwarde.Config.Fields.{
  get_str-item, get_int-item, parse_tty-tty_node, parse_port-built,
}

module _ (cjson : Cjson) (b : Builder cjson) (laws : BuildLaws cjson b) where
  open cjson use {Node, parse, item, elements}
  open b use {create_object, create_array, create_string, create_number}

  -- The items of a port's object that has settings.
  abbrev port_fields : Text → Text → Node → List (Text × Node)
  port_fields name type_str sub =
      (codes "name", create_string name)
      ∷ (codes "type", create_string type_str)
      ∷ (type_str, sub)
      ∷ []

  abbrev tcp_server_fields : Text → ℤ → ℤ → List (Text × Node)
  tcp_server_fields addr port backlog =
      (codes "bind", create_string addr)
      ∷ (codes "port", create_number port)
      ∷ (codes "backlog", create_number backlog)
      ∷ []

  abbrev addr_fields : Text → Text → ℤ → List (Text × Node)
  addr_fields key addr port = (key, create_string addr) ∷ (codes "port", create_number port) ∷ []

  -- A string or a number in the settings.
  sub_str :
      (fields sub : List (Text × Node)) (key sub_key s : Text) (size : ℕ)
      → find cjson b fields key ≡ some (built cjson b create_object sub)
      → find cjson b sub sub_key ≡ some (create_string s)
      → ShorterThan size s
      → get_str cjson (item (built cjson b create_object fields) key) sub_key size ≡ s
  sub_str fields sub key sub_key s size ef es h =
      ap (λ x. get_str cjson x sub_key size) (item-object cjson b laws fields key ∙ ef)
      ∙ get_str-item cjson b laws (built cjson b create_object sub) sub_key s size
          (item-object cjson b laws sub sub_key ∙ es) h

  sub_int :
      (fields sub : List (Text × Node)) (key sub_key : Text) (n : ℤ)
      → find cjson b fields key ≡ some (built cjson b create_object sub)
      → find cjson b sub sub_key ≡ some (create_number n)
      → IsInt n
      → get_int cjson (item (built cjson b create_object fields) key) sub_key ≡ n
  sub_int fields sub key sub_key n ef es h =
      ap (λ x. get_int cjson x sub_key) (item-object cjson b laws fields key ∙ ef)
      ∙ get_int-item cjson b laws (built cjson b create_object sub) sub_key n
          (item-object cjson b laws sub sub_key ∙ es) h

  -- The type, as it is written.
  type_of :
      (fields : List (Text × Node)) (type_str : Text)
      → find cjson b fields (codes "type") ≡ some (create_string type_str)
      → ShorterThan name_size type_str
      → get_str cjson (some (built cjson b create_object fields)) (codes "type") name_size
        ≡ type_str
  type_of fields type_str e h =
      get_str-item cjson b laws (built cjson b create_object fields) (codes "type") type_str
        name_size (item-object cjson b laws fields (codes "type") ∙ e) h

  pub parse_port-port_node :
      (name : Text) (fd : ℤ) (use_frame : Bool) (c : Conf)
      → (let p : PortDef = record { name = name; fd = fd; use_frame = use_frame; conf = c } in
          PortFits p → ConfInts c → parse_port cjson (port_node cjson b p) ≡ reload_port p)
  unfolding port_node reload_port ConfFits ConfInts parse_conf str_ieq str_eq
  parse_port-port_node name fd use_frame (tty_conf t) h n =
      let fields : List (Text × Node) = port_fields name (codes "tty") (tty_node cjson b t) in
      parse_port-built cjson b laws name (codes "tty") fields (tty_conf t) refl h.0
        (type_of fields (codes "tty") refl (omega arith)) refl refl
        (ap (parse_tty cjson) (item-object cjson b laws fields (codes "tty"))
          ∙ parse_tty-tty_node cjson b laws t h.1 n)
  parse_port-port_node name fd use_frame (tcp_server_conf addr port backlog) h n =
      let ts : List (Text × Node) = tcp_server_fields addr port backlog in
      let fields : List (Text × Node) =
        port_fields name (codes "tcp_server") (built cjson b create_object ts) in
      let num = sub_int fields ts (codes "tcp_server") in
      parse_port-built cjson b laws name (codes "tcp_server") fields
        (tcp_server_conf addr port backlog) refl h.0
        (type_of fields (codes "tcp_server") refl (omega arith)) refl refl
        (λ i.
          tcp_server_conf
            (sub_str fields ts (codes "tcp_server") (codes "bind") addr addr_size refl refl h.1 i)
            (num (codes "port") port refl refl n.0 i)
            (num (codes "backlog") backlog refl refl n.1 i))
  parse_port-port_node name fd use_frame (tcp_client_conf addr port) h n =
      let tc : List (Text × Node) = addr_fields (codes "addr") addr port in
      let fields : List (Text × Node) =
        port_fields name (codes "tcp_client") (built cjson b create_object tc) in
      parse_port-built cjson b laws name (codes "tcp_client") fields (tcp_client_conf addr port)
        refl h.0 (type_of fields (codes "tcp_client") refl (omega arith)) refl refl
        (λ i.
          tcp_client_conf
            (sub_str fields tc (codes "tcp_client") (codes "addr") addr addr_size refl refl h.1 i)
            (sub_int fields tc (codes "tcp_client") (codes "port") port refl refl n i))
  parse_port-port_node name fd use_frame (udp_conf addr port) h n =
      let u : List (Text × Node) = addr_fields (codes "bind") addr port in
      let fields : List (Text × Node) =
        port_fields name (codes "udp") (built cjson b create_object u) in
      parse_port-built cjson b laws name (codes "udp") fields (udp_conf addr port) refl h.0
        (type_of fields (codes "udp") refl (omega arith)) refl refl
        (λ i.
          udp_conf (sub_str fields u (codes "udp") (codes "bind") addr addr_size refl refl h.1 i)
            (sub_int fields u (codes "udp") (codes "port") port refl refl n i))
  parse_port-port_node name fd use_frame (usb_conf path) h n =
      let u : List (Text × Node) = (codes "path", create_string path) ∷ [] in
      let fields : List (Text × Node) =
        port_fields name (codes "usb") (built cjson b create_object u) in
      parse_port-built cjson b laws name (codes "usb") fields (usb_conf path) refl h.0
        (type_of fields (codes "usb") refl (omega arith)) refl refl
        (ap usb_conf (sub_str fields u (codes "usb") (codes "path") path path_size refl refl h.1))
  parse_port-port_node name fd use_frame (ipc_conf path) h n =
      let fields : List (Text × Node) = (codes "name", create_string name) ∷ [] in
      parse_port-built cjson b laws name [] fields zero_conf refl h.0
        (ap (λ x. take (name_size - 1) (text_or_empty (x >>= cjson.string_value)))
          (item-object cjson b laws fields (codes "type")))
        refl refl refl
