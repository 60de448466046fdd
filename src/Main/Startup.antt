-- ===== src/Main/Startup.antt =====
-- ez_router.c, `main` up to the start of the threads: the configuration is loaded, the plugins and
-- the ports are opened, and the ports go into the reactor's table.
use embedded_device_forwarde.Prelude.{
  ℕ, List, [], ◌∷◌, false, Option, none, replicate, if◌then◌else◌,
}
use embedded_device_forwarde.Prelude.Int.{ℤ, pos, int_eq}
use embedded_device_forwarde.Prelude.Text.{Text}
use embedded_device_forwarde.Json.{Cjson}
use embedded_device_forwarde.Config.Types.{PortDef, PluginDef, Config, base, max_ports}
use embedded_device_forwarde.Config.Parse.{load_config}
use embedded_device_forwarde.Ports.Table.{Slot, add_port}
use embedded_device_forwarde.Ports.Open.{Calls, ports_open_all}

-- A slot of `g_port_table` at the start of the program.
abbrev pub zero_slot : Slot
zero_slot = record { used = false; fd = pos 0; port = none }

abbrev pub empty_table : List Slot
empty_table = replicate max_ports zero_slot

-- `plugin_load` is called on each of these paths in turn.
unfoldable pub plugin_paths : List PluginDef → List Text
plugin_paths [] = []
plugin_paths (p ∷ ps) = p.path ∷ plugin_paths ps

-- The loop with `reactor_add_port`.
unfoldable pub add_ports : List PortDef → List Slot → List Slot
add_ports [] table = table
add_ports (p ∷ ps) table = add_ports ps (add_port (base p) table).0

-- `g_config`, the plugins that were loaded and `g_port_table` when the threads are started.
pub record Started : Type 0 where
  pub config : Config
  pub loaded : List Text
  pub table : List Slot

-- The block under `if (!load_config(...))`.
unfoldable pub restore : (ℕ → Calls) → ℤ × Config → Started
unfolding plugin_paths add_ports
restore sys (status, cfg) =
    let ports = (ports_open_all sys 0 cfg.ports).1 in
    if int_eq status (pos 0)
    then record {
      config = record cfg { ports = ports };
      loaded = plugin_paths cfg.plugins;
      table = add_ports ports empty_table;
    }
    else record { config = cfg; loaded = []; table = empty_table }

unfoldable pub startup : Cjson → Option (List ℕ) → (ℕ → Calls) → Config → Started
unfolding restore
startup cjson file sys g_config = restore sys (load_config cjson file g_config)
