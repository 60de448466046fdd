-- ===== src/Registry/Examples.antt =====
-- A registry run: a client registers, a second one with the same id is refused.
use embedded_device_forwarde.Prelude.{false, ℕ, ◌≡◌, refl, List, [], ◌∷◌, take}
use embedded_device_forwarde.Prelude.Int.{pos, minus_one}
use embedded_device_forwarde.Prelude.Text.{codes, str_eq}
use embedded_device_forwarde.Json.Toy.{toy}
use embedded_device_forwarde.Registry.Entry.{copy_field}
use embedded_device_forwarde.Registry.Parse.{parse_register_json}
use embedded_device_forwarde.Registry.Table.{
  Registry, init, register, unregister, release_slot, claim, scan,
}
use embedded_device_forwarde.Registry.Invariant.{IsValid, register-IsValid, init_fresh-IsValid}
use embedded_device_forwarde.Registry.Clients.{
  Call, register_call, unregister_call, id_call, code, apply, view, replies, Behaves, Ready,
}
use embedded_device_forwarde.Registry.Refines.{replies-Behaves}

abbrev fresh : Registry
fresh = record { table = []; inited = false }

abbrev dev_a : List ℕ
dev_a = codes "A"

-- One client registered, on a table of 32 slots.
abbrev one_client : Registry
one_client = (register toy (pos 4) dev_a 1 100 fresh).1

registered_run : (register toy (pos 4) dev_a 1 100 fresh).0 ≡ pos 0
unfolding register init claim scan parse_register_json str_eq copy_field
registered_run = refl

duplicate_run : (register toy (pos 5) dev_a 1 100 one_client).0 ≡ minus_one
unfolding register init claim scan parse_register_json str_eq copy_field
duplicate_run = refl

fresh-IsValid : IsValid fresh
fresh-IsValid = record { slots = λ e. cc e; distinct = tt }

one_client-IsValid : IsValid (register toy (pos 4) dev_a 1 100 fresh).1
one_client-IsValid = register-IsValid toy (pos 4) dev_a 1 100 fresh fresh-IsValid

empty-Ready : Ready (init fresh)
unfolding init
empty-Ready = record { valid = init_fresh-IsValid fresh refl; inited = refl }

-- Two clients with one id; the first leaves, and the second tries again.
abbrev calls : List Call
calls =
    register_call (pos 4) dev_a 1 100
    ∷ register_call (pos 5) dev_a 1 200
    ∷ unregister_call (pos 4)
    ∷ register_call (pos 5) dev_a 1 300
    ∷ id_call (codes "A")
    ∷ []

replies-Behaves_example : Behaves toy calls (view (init fresh)) (replies toy calls (init fresh))
replies-Behaves_example = replies-Behaves toy calls (init fresh) empty-Ready

calls_run :
    take 4 (replies toy calls (init fresh))
    ≡ code (pos 0) ∷ code minus_one ∷ code (pos 0) ∷ code (pos 0) ∷ []
unfolding replies apply register unregister release_slot init claim scan parse_register_json str_eq
    copy_field
calls_run = refl
