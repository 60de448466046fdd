-- ===== src/Supervisor/Examples.antt =====
-- A spawn that loses its slot to another thread, and a heartbeat that is late.
use embedded_device_forwarde.Prelude.{
  replicate, false, ◌⊎◌, ◌≡◌, refl, List, [], ◌∷◌, some, set, replicate, length-set, if◌then◌else◌,
}
use embedded_device_forwarde.Prelude.Text.{str_eq, codes}
use embedded_device_forwarde.Json.Toy.{toy}
use embedded_device_forwarde.Prelude.Int.{pos}
use embedded_device_forwarde.Registry.Parse.{parse_register_json}
use embedded_device_forwarde.Registry.Entry.{copy_field}
use embedded_device_forwarde.Registry.Table.{
  scan, claim, iterate_table, iterate, Registry, register,
}
use embedded_device_forwarde.Registry.Invariant.{IsValid, register-IsValid}
use embedded_device_forwarde.Supervisor.Children.{
  used_at, final_slot, commit_at, commit, after_fork, Child, Supervisor, init, no_child, free_child,
  forked, new_child, spawn,
}
use embedded_device_forwarde.Supervisor.Spawn.{Started, Killed, spawn-outcome}
use embedded_device_forwarde.Supervisor.Heartbeat.{
  count_stale, collect_cb, check_heartbeats_at, overdue, check_heartbeats_at_lem,
}

abbrev rival : List Child → List Child
rival cs = set cs 0 (new_child (codes "rival") 7 5)

abbrev fresh : Supervisor
fresh = record { children = []; inited = false }

rival_first :
    (spawn (some (codes "probe")) (some (codes "probe")) (forked 8) 6 rival fresh).children
    ≡ new_child (codes "rival") 7 5 ∷ new_child (codes "probe") 8 6 ∷ replicate 30 no_child
unfolding spawn after_fork commit commit_at final_slot init free_child used_at
rival_first = refl

fresh-free_child : free_child (init fresh).children ≡ some 0
unfolding init free_child
fresh-free_child = refl

spawn-outcome_example :
    Started
      (codes "probe")
      8
      6
      (rival (init fresh).children)
      (spawn (some (codes "probe")) (some (codes "probe")) (forked 8) 6 rival fresh)
    ⊎ Killed 8
        (rival (init fresh).children)
        (spawn (some (codes "probe")) (some (codes "probe")) (forked 8) 6 rival fresh)
spawn-outcome_example =
    spawn-outcome (codes "probe") (codes "probe") 8 6 rival fresh 0
      (λ cs. length-set cs 0 (new_child (codes "rival") 7 5)) fresh-free_child

abbrev one_client : Registry
one_client = (register toy (pos 4) (codes "A") 1 100 (record { table = []; inited = false })).1

one_client-IsValid : IsValid one_client
one_client-IsValid =
    register-IsValid toy (pos 4) (codes "A") 1 100 (record { table = []; inited = false })
      (record { slots = λ e. cc e; distinct = tt })

late : check_heartbeats_at 1000 500 one_client ≡ 1
unfolding check_heartbeats_at iterate iterate_table collect_cb count_stale register init claim scan
    parse_register_json str_eq copy_field embedded_device_forwarde.Registry.Table.init
late = refl

check_heartbeats_at_lem_example :
    check_heartbeats_at 1000 500 one_client
    ≡ (if one_client.inited then overdue 1000 500 one_client.table else 0)
check_heartbeats_at_lem_example = check_heartbeats_at_lem 1000 500 one_client one_client-IsValid
