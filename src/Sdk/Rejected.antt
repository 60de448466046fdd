-- ===== src/Sdk/Rejected.antt =====
-- The frames of this client library at the daemon's receive loop.
use embedded_device_forwarde.Prelude.{
  ℕ, ◌≤◌, ◌≡◌, refl, ◌∙◌, ap, List, [], ◌∷◌, ◌++◌, Bool, Option, none, some, All, length,
  length-append, arith, if◌then◌else◌, true, false, subst, sym, not, ◌||◌,
}
use embedded_device_forwarde.Prelude.Int.{ℤ, pos, minus_one, is_negative}
use embedded_device_forwarde.Prelude.Text.{Text}
use embedded_device_forwarde.Protocol.Header.{Header, bad_magic, hdr_size, read_header}
use embedded_device_forwarde.Protocol.Decode.{decode, fail}
use embedded_device_forwarde.Protocol.Streaming.{decode-Answers}
use embedded_device_forwarde.Ipc.Server.{Round, closed, corrupt, handle_client, drain}
use embedded_device_forwarde.Ipc.Chunks.{Delivers, arrived, settle, handle_client-arrived}
use embedded_device_forwarde.Ipc.Drain.{drain-fail}
use embedded_device_forwarde.Sdk.Frames.{
  Link, cmd_clear_routes, cmd_save_config, cmd_load_plugin, cmd_unload_plugin,
}
use embedded_device_forwarde.Sdk.Calls.{
  Sent, bare_frame, routes_frame, path_frame, ezr_clear_routes, ezr_save_config, ezr_set_routes,
  ezr_load_plugin, ezr_unload_plugin,
}

-- A call of the library, with what `malloc` left or whether it succeeded.
pub data Call : Type 0 where
  clear_routes : ℕ → Call
  save_config : ℕ → Call
  set_routes : ℕ → List Link → Call
  load_plugin : Bool → Text → Call
  unload_plugin : Bool → Text → Call

unfoldable pub call : ℤ → Call → Sent
unfolding ezr_clear_routes ezr_save_config ezr_set_routes ezr_load_plugin ezr_unload_plugin
call g_sdk_fd (clear_routes reserved) = ezr_clear_routes g_sdk_fd reserved
call g_sdk_fd (save_config reserved) = ezr_save_config g_sdk_fd reserved
call g_sdk_fd (set_routes reserved links) = ezr_set_routes g_sdk_fd reserved links
call g_sdk_fd (load_plugin allocated path) = ezr_load_plugin g_sdk_fd allocated path
call g_sdk_fd (unload_plugin allocated path) = ezr_unload_plugin g_sdk_fd allocated path

-- Bytes that begin with those of the library's magic number.
IsLegacy : List ℕ → Type 0
IsLegacy bytes = (bytes' : List ℕ) × (bytes ≡ 0x45 ∷ 0x23 ∷ bytes') × (hdr_size ≤ length bytes)

bare_frame-IsLegacy : (cmd reserved : ℕ) → IsLegacy (bare_frame cmd reserved)
unfolding IsLegacy
bare_frame-IsLegacy cmd reserved = (_, refl, omega arith)

routes_frame-IsLegacy : (reserved : ℕ) (links : List Link) → IsLegacy (routes_frame reserved links)
unfolding IsLegacy
routes_frame-IsLegacy reserved links = (_, refl, omega arith)

path_frame-IsLegacy : (cmd : ℕ) (path : Text) → IsLegacy (path_frame cmd path)
unfolding IsLegacy
path_frame-IsLegacy cmd path = (_, refl, omega arith)

LegacySent : Option (List ℕ) → Type 0
LegacySent none = Unit
LegacySent (some bytes) = IsLegacy bytes

sent-IsLegacy :
    (refused : Bool) (frame bytes : List ℕ)
    → IsLegacy frame
    → (let r : Sent = if refused then (minus_one, none) else (pos 0, some frame) in
        r.1 ≡ some bytes → IsLegacy bytes)
unfolding LegacySent
sent-IsLegacy true frame bytes h e = absurd (cc e)
sent-IsLegacy false frame bytes h e = subst LegacySent e h

call-IsLegacy :
    (g_sdk_fd : ℤ) (c : Call) (bytes : List ℕ) → (call g_sdk_fd c).1 ≡ some bytes → IsLegacy bytes
unfolding call
call-IsLegacy g_sdk_fd (clear_routes reserved) bytes =
    sent-IsLegacy (is_negative g_sdk_fd) (bare_frame cmd_clear_routes reserved) bytes
      (bare_frame-IsLegacy cmd_clear_routes reserved)
call-IsLegacy g_sdk_fd (save_config reserved) bytes =
    sent-IsLegacy (is_negative g_sdk_fd) (bare_frame cmd_save_config reserved) bytes
      (bare_frame-IsLegacy cmd_save_config reserved)
call-IsLegacy g_sdk_fd (set_routes reserved links) bytes =
    sent-IsLegacy (is_negative g_sdk_fd) (routes_frame reserved links) bytes
      (routes_frame-IsLegacy reserved links)
call-IsLegacy g_sdk_fd (load_plugin allocated path) bytes =
    sent-IsLegacy (is_negative g_sdk_fd || not allocated) (path_frame cmd_load_plugin path) bytes
      (path_frame-IsLegacy cmd_load_plugin path)
call-IsLegacy g_sdk_fd (unload_plugin allocated path) bytes =
    sent-IsLegacy (is_negative g_sdk_fd || not allocated) (path_frame cmd_unload_plugin path) bytes
      (path_frame-IsLegacy cmd_unload_plugin path)

IsLegacy-decode : (bytes more : List ℕ) → IsLegacy bytes → decode (bytes ++ more) ≡ fail bad_magic
unfolding IsLegacy
IsLegacy-decode bytes more (rest, e, long) =
    let m = ap (λ l. (read_header (l ++ more)).magic_field) e in
    (decode-Answers (bytes ++ more)).if_magic.1
      (omega (arith, length-append bytes more), λ k. omega (arith, sym m ∙ k))

module _ {ℓ} {W : Type ℓ} (dispatch : ℤ → Header → List ℕ → W → W) (hang_up : ℤ → W → W) where
  -- Whatever the client library sends first on a connection, the daemon hangs up on it for its magic
  -- number, and dispatches nothing: neither that frame nor anything behind it, however the bytes are
  -- cut.
  pub call-rejected :
      (g_sdk_fd : ℤ) (c : Call) (bytes more : List ℕ) (fd : ℤ) (rounds : List Round) (w : W)
      → (call g_sdk_fd c).1 ≡ some bytes
      → All Delivers rounds
      → arrived rounds ≡ bytes ++ more
      → handle_client dispatch hang_up fd [] rounds w ≡ closed (corrupt bad_magic) (hang_up fd w)
  call-rejected g_sdk_fd c bytes more fd rounds w sent live e =
      handle_client-arrived dispatch hang_up fd rounds w live
      ∙ ap (λ l. settle dispatch hang_up fd (drain dispatch fd l w)) e
      ∙ ap (settle dispatch hang_up fd) (
          drain-fail dispatch fd (bytes ++ more) w
            (IsLegacy-decode bytes more (call-IsLegacy g_sdk_fd c bytes sent)))
