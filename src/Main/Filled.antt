-- ===== src/Main/Filled.antt =====
-- The reactor's table after the start, and the ports with an fd.
use mathlib.Core.List
use embedded_device_forwarde.Prelude.{
  ℕ, suc, ◌-◌, ◌≤◌, ◌≡◌, refl, subst, ap₂, ◌∙◌, ap, sym, List, [], ◌∷◌, ◌++◌, append_assoc,
  append-nil, Bool, true, false, Option, none, some, replicate, length, if◌then◌else◌, Bool-cases,
  inl, inr, arith,
}
use embedded_device_forwarde.Prelude.Int.{ℤ, pos, is_negative}
use embedded_device_forwarde.Json.{Cjson}
use embedded_device_forwarde.Config.Types.{PortDef, Port, Config, base, max_ports}
use embedded_device_forwarde.Config.Parse.{load_config}
use embedded_device_forwarde.Config.Bounds.{load_config-IsValid}
use embedded_device_forwarde.Ports.Table.{Slot, entry, put, add_port}
use embedded_device_forwarde.Ports.Open.{Calls, ports_open_all}
use embedded_device_forwarde.Main.Startup.{
  plugin_paths, zero_slot, empty_table, add_ports, restore, startup, Started,
}

-- The ports whose fd is not negative, in order.
unfoldable pub open_ports : List PortDef → List Port
open_ports [] = []
open_ports (p ∷ ps) = let rest = open_ports ps in if is_negative p.fd then rest else base p ∷ rest

put-entries :
    (p : Port) (qs : List Port) (rest : List Slot)
    → put p (List.map entry qs ++ zero_slot ∷ rest) ≡ List.map entry qs ++ entry p ∷ rest
unfolding put
put-entries p [] rest = refl
put-entries p (q ∷ qs) rest = ap (λ l. entry q ∷ l) (put-entries p qs rest)

-- A table of these ports with free slots behind them.
abbrev filled : List Port → ℕ → List Slot
filled qs n = List.map entry qs ++ replicate n zero_slot

entries_snoc :
    (p : Port) (qs : List Port) (rest : List Slot)
    → List.map entry qs ++ entry p ∷ rest ≡ List.map entry (qs ++ p ∷ []) ++ rest
entries_snoc p [] rest = refl
entries_snoc p (q ∷ qs) rest = ap (λ l. entry q ∷ l) (entries_snoc p qs rest)

put-filled :
    (p : Port) (qs : List Port) (n : ℕ) → put p (filled qs (suc n)) ≡ filled (qs ++ p ∷ []) n
put-filled p qs n =
    put-entries p qs (replicate n zero_slot) ∙ entries_snoc p qs (replicate n zero_slot)

-- The table and the open ports, on the test of an fd.
add_port-test :
    (p : Port) (table : List Slot) (negative : Bool)
    → is_negative p.fd ≡ negative
    → (add_port p table).0 ≡ (if negative then table else put p table)
unfolding add_port
add_port-test p table negative e =
    ap
      (λ (t : Bool).
        let r : List Slot × Option ℤ = if t then (table, none) else (put p table, some p.fd) in r.0)
      e
    ∙ first_part negative
  where
    first_part :
        (t : Bool)
        → (let r : List Slot × Option ℤ = if t then (table, none) else (put p table, some p.fd) in
            r.0)
          ≡ (if t then table else put p table)
    first_part true = refl
    first_part false = refl

open_ports-nil : open_ports [] ≡ []
unfolding open_ports
open_ports-nil = refl

open_ports-test :
    (p : PortDef) (ps : List PortDef) (negative : Bool)
    → is_negative p.fd ≡ negative
    → open_ports (p ∷ ps) ≡ (if negative then open_ports ps else base p ∷ open_ports ps)
unfolding open_ports
open_ports-test p ps negative e = ap (λ t. if t then open_ports ps else base p ∷ open_ports ps) e

-- The claim about a table after the loop.
Adds : List PortDef → List Port → ℕ → List Port → Type 0
Adds ps qs n os = add_ports ps (filled qs n) ≡ filled (qs ++ os) (n - length os)

add_ports-filled :
    (ps : List PortDef) (qs : List Port) (n : ℕ)
    → length (open_ports ps) ≤ n
    → Adds ps qs n (open_ports ps)
unfolding Adds add_ports
add_ports-filled [] qs n h =
    let none_open : open_ports [] ≡ [] = open_ports-nil in
    subst (Adds [] qs n) (sym none_open) (ap₂ filled (sym (append-nil qs)) (omega arith))
add_ports-filled (p ∷ ps) qs n h = elim (Bool-cases (is_negative p.fd)) [
  | inl b ↦
      let o = open_ports-test p ps true b in
      subst (Adds (p ∷ ps) qs n) (sym o) (
        ap (add_ports ps) (add_port-test (base p) (filled qs n) true b)
        ∙ add_ports-filled ps qs n (omega (arith, ap length o)))
  | inr b ↦
      let o = open_ports-test p ps false b in
      subst (Adds (p ∷ ps) qs n) (sym o) (
        let one_used : n ≡ suc (n - 1) = omega (arith, ap length o) in
        ap (add_ports ps) (
          add_port-test (base p) (filled qs n) false b
          ∙ ap (λ k. put (base p) (filled qs k)) one_used
          ∙ put-filled (base p) qs (n - 1))
        ∙ add_ports-filled ps (qs ++ base p ∷ []) (n - 1) (omega (arith, ap length o))
        ∙ ap₂ filled (append_assoc qs (base p ∷ []) (open_ports ps)) (omega arith))
]

length-open_ports : (ps : List PortDef) → length (open_ports ps) ≤ length ps
unfolding open_ports
length-open_ports [] = omega arith
length-open_ports (p ∷ ps) = ground (arith, length-open_ports ps)

length-ports_open_all :
    (sys : ℕ → Calls) (i : ℕ) (ps : List PortDef) → length (ports_open_all sys i ps).1 ≡ length ps
unfolding ports_open_all
length-ports_open_all sys i [] = refl
length-ports_open_all sys i (p ∷ ps) = ap suc (length-ports_open_all sys (suc i) ps)

-- The table holds the open ports of the configuration, and free slots behind them.
pub Complete : Started → Type 0
Complete s =
    let ps = open_ports s.config.ports in
    s.table ≡ List.map entry ps ++ replicate (max_ports - length ps) zero_slot

restore-loaded :
    (sys : ℕ → Calls) (status : ℤ) (cfg : Config)
    → status ≡ pos 0
    → restore sys (status, cfg) ≡ (
        let ports = (ports_open_all sys 0 cfg.ports).1 in
        record {
          config = record cfg { ports = ports };
          loaded = plugin_paths cfg.plugins;
          table = add_ports ports empty_table;
        })
unfolding restore
restore-loaded sys status cfg e = rw e

-- After a start with a configuration that could be loaded, the table of 32 slots holds exactly the
-- ports whose fd is not negative after the opening, in the order of the configuration, and none is
-- left out for want of a slot. A tty port that load_config left at fd 0 is one of them, opened or not.
pub startup-table :
    (cjson : Cjson) (file : Option (List ℕ)) (sys : ℕ → Calls) (g_config : Config)
    → (load_config cjson file g_config).0 ≡ pos 0
    → Complete (startup cjson file sys g_config)
unfolding startup Complete Adds
startup-table cjson file sys g_config e =
    let loaded = load_config cjson file g_config in
    let ps = (ports_open_all sys 0 loaded.1.ports).1 in
    let v = load_config-IsValid cjson file g_config in
    subst Complete (sym (restore-loaded sys loaded.0 loaded.1 e)) (
      add_ports-filled ps [] max_ports (
        omega
          (arith, length-open_ports ps, length-ports_open_all sys 0 loaded.1.ports, v.port_room)))
