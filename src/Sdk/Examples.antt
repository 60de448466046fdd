-- ===== src/Sdk/Examples.antt =====
-- A client asks to clear the routes, over a connection that cuts its frame in two.
use embedded_device_forwarde.Prelude.{true, ℕ, ◌+◌, ◌≡◌, refl, List, [], ◌∷◌, some, take, drop}
use embedded_device_forwarde.Prelude.Int.{ℤ, pos}
use embedded_device_forwarde.Prelude.Text.{codes}
use embedded_device_forwarde.Protocol.Header.{Header, bad_magic}
use embedded_device_forwarde.Ipc.Server.{Round, received, closed, corrupt, handle_client}
use embedded_device_forwarde.Sdk.Calls.{bare_frame, ezr_load_plugin}
use embedded_device_forwarde.Sdk.Rejected.{clear_routes, call, call-rejected}
use embedded_device_forwarde.Sdk.Frames.{cmd_clear_routes}

-- The world counts the frames that were dispatched.
abbrev count : ℤ → Header → List ℕ → ℕ → ℕ
count fd h payload w = w + 1

abbrev leave : ℤ → ℕ → ℕ
leave fd w = w

abbrev frame : List ℕ
frame = bare_frame cmd_clear_routes 0xABCD

abbrev two_chunks : List Round
two_chunks = received (take 5 frame) ∷ received (drop 5 frame) ∷ []

path_and_nul :
    (ezr_load_plugin (pos 3) true (codes "p")).1
    ≡ some
        (0x45 ∷ 0x23 ∷ 0xF1 ∷ 0xE7 ∷ 4 ∷ 0 ∷ 0 ∷ 0 ∷ 6 ∷ 0 ∷ 0 ∷ 0 ∷ 2 ∷ 0 ∷ 0 ∷ 0 ∷ 112 ∷ 0 ∷ [])
unfolding ezr_load_plugin
path_and_nul = refl

cleared : (call (pos 3) (clear_routes 0xABCD)).1 ≡ some frame
unfolding call
cleared = refl

call-rejected_example :
    handle_client count leave (pos 8) [] two_chunks 0 ≡ closed (corrupt bad_magic) (leave (pos 8) 0)
call-rejected_example =
    call-rejected count leave (pos 3) (clear_routes 0xABCD) frame [] (pos 8) two_chunks 0 cleared
      (tt, (tt, tt)) refl
