-- ===== src/Config/Print.antt =====
-- config_store.c: `save_config`. The source attaches an object to its parent and then fills it; here
-- it is filled first, which makes the same document.
use embedded_device_forwarde.Prelude.{ℕ, List, [], ◌∷◌}
use embedded_device_forwarde.Prelude.Int.{pos, ℤ}
use embedded_device_forwarde.Prelude.Text.{Text, codes}
use embedded_device_forwarde.Json.{Cjson}
use embedded_device_forwarde.Json.Build.{Builder}
use embedded_device_forwarde.Config.Types.{
  TtyConf, Conf, tty_conf, tcp_server_conf, tcp_client_conf, udp_conf, usb_conf, ipc_conf, PortDef,
  PluginDef, Route, Config,
}

module _ (cjson : Cjson) (b : Builder cjson) where
  open cjson use {Node}
  open b use {
    create_object, create_array, create_string, create_number, add_item_to_object,
    add_item_to_array, print,
  }

  -- cJSON_AddStringToObject and cJSON_AddNumberToObject.
  abbrev add_string : Node → Text → Text → Node
  add_string o key s = add_item_to_object o key (create_string s)

  abbrev add_number : Node → Text → ℤ → Node
  add_number o key n = add_item_to_object o key (create_number n)

  -- The object with a port's own settings.
  unfoldable pub tty_node : TtyConf → Node
  tty_node t =
      let o1 = add_string create_object (codes "path") t.path in
      let o2 = add_number o1 (codes "baudrate") t.baudrate in
      let o3 = add_number o2 (codes "databits") t.databits in
      let o4 = add_number o3 (codes "stopbits") t.stopbits in
      let o5 = add_number o4 (codes "parity") (pos t.parity) in
      add_number o5 (codes "flow") (pos t.flow)

  -- The switch on `base.type`, which has no case for an IPC server.
  unfoldable pub add_conf : Node → Conf → Node
  unfolding tty_node
  add_conf o (tty_conf t) =
      add_item_to_object (add_string o (codes "type") (codes "tty")) (codes "tty") (tty_node t)
  add_conf o (tcp_server_conf addr port backlog) =
      let ts1 = add_string create_object (codes "bind") addr in
      let ts2 = add_number ts1 (codes "port") port in
      let ts3 = add_number ts2 (codes "backlog") backlog in
      add_item_to_object (add_string o (codes "type") (codes "tcp_server")) (codes "tcp_server") ts3
  add_conf o (tcp_client_conf addr port) =
      let tc1 = add_string create_object (codes "addr") addr in
      let tc2 = add_number tc1 (codes "port") port in
      add_item_to_object (add_string o (codes "type") (codes "tcp_client")) (codes "tcp_client") tc2
  add_conf o (udp_conf addr port) =
      let u1 = add_string create_object (codes "bind") addr in
      let u2 = add_number u1 (codes "port") port in
      add_item_to_object (add_string o (codes "type") (codes "udp")) (codes "udp") u2
  add_conf o (usb_conf path) =
      let u = add_string create_object (codes "path") path in
      add_item_to_object (add_string o (codes "type") (codes "usb")) (codes "usb") u
  add_conf o (ipc_conf path) = o

  -- The bodies of the three loops.
  unfoldable pub port_node : PortDef → Node
  unfolding add_conf
  port_node p = add_conf (add_string create_object (codes "name") p.name) p.conf

  unfoldable pub plugin_node : PluginDef → Node
  plugin_node p = add_string (add_string create_object (codes "name") p.name) (codes "path") p.path

  unfoldable pub route_node : Route → Node
  route_node r =
      let o1 = add_string create_object (codes "src") r.src in
      let o2 = add_string o1 (codes "dst") r.dst in
      let o3 = add_string o2 (codes "plugin") r.plugin in add_string o3 (codes "handler") r.handler

  -- A loop over a table, which appends to an array.
  unfoldable pub add_all : {A : Type 0} → (A → Node) → Node → List A → Node
  add_all f arr [] = arr
  add_all f arr (x ∷ xs) = add_all f (add_item_to_array arr (f x)) xs

  unfoldable pub config_node : Config → Node
  unfolding add_all port_node plugin_node route_node
  config_node cfg =
      let o1 =
        add_item_to_object create_object (codes "ports")
          (add_all port_node create_array cfg.ports) in
      let o2 =
        add_item_to_object o1 (codes "plugins") (add_all plugin_node create_array cfg.plugins) in
      add_item_to_object o2 (codes "routes") (add_all route_node create_array cfg.routes)

  -- `save_config`: what it writes to the file, if the file can be opened.
  unfoldable pub save_config : Config → List ℕ
  unfolding config_node
  save_config cfg = print (config_node cfg)
