-- ===== src/Sdk/Calls.antt =====
-- ez_router_sdk.c: the calls. The state is `g_sdk_fd`; a call returns its result with the bytes that
-- it gives to `send`, if it does. No call reads the result of `send`.
use embedded_device_forwarde.Prelude.{
  ℕ, ◌+◌, ◌*◌, ◌%◌, ◌^◌, List, [], ◌∷◌, ◌++◌, Bool, Option, none, some, length, if◌then◌else◌, not,
  ◌||◌,
}
use embedded_device_forwarde.Prelude.Int.{ℤ, pos, minus_one, is_negative}
use embedded_device_forwarde.Prelude.Text.{Text}
use embedded_device_forwarde.Protocol.Header.{bytes32}
use embedded_device_forwarde.Sdk.Frames.{
  ipc_magic, cmd_set_routes, cmd_clear_routes, cmd_save_config, cmd_load_plugin, cmd_unload_plugin,
  ipc_header_bytes, Link, link_size, links_bytes,
}

-- `ezr_connect`: the results of `socket` and `connect`; the fd, and the one that was closed again.
unfoldable pub ezr_connect : ℤ → ℤ → ℤ × Option ℤ
ezr_connect socket connected =
    if is_negative socket
    then (minus_one, none)
    else if is_negative connected
    then (minus_one, some socket)
    else (socket, none)

-- `ezr_init`: the result and `g_sdk_fd`.
unfoldable pub ezr_init : ℤ → ℤ → ℤ × ℤ
unfolding ezr_connect
ezr_init socket connected =
    let fd = (ezr_connect socket connected).0 in (if is_negative fd then minus_one else pos 0, fd)

-- `ezr_close`: `g_sdk_fd` after it, and the fd that was closed.
unfoldable pub ezr_close : ℤ → ℤ × Option ℤ
ezr_close g_sdk_fd = if is_negative g_sdk_fd then (g_sdk_fd, none) else (minus_one, some g_sdk_fd)

abbrev pub Sent : Type 0
Sent = ℤ × Option (List ℕ)

-- A frame without payload. `reserved` is what `malloc` left there.
abbrev pub bare_frame : ℕ → ℕ → List ℕ
bare_frame cmd reserved =
    ipc_header_bytes
      (record { magic_field = ipc_magic; cmd = cmd; reserved = reserved; payload_length = 0 })

unfoldable pub ezr_clear_routes : ℤ → ℕ → Sent
ezr_clear_routes g_sdk_fd reserved =
    if is_negative g_sdk_fd
    then (minus_one, none)
    else (pos 0, some (bare_frame cmd_clear_routes reserved))

unfoldable pub ezr_save_config : ℤ → ℕ → Sent
ezr_save_config g_sdk_fd reserved =
    if is_negative g_sdk_fd
    then (minus_one, none)
    else (pos 0, some (bare_frame cmd_save_config reserved))

-- The frame of `ezr_set_routes(links, count)`, where `links` has `count` entries.
abbrev pub routes_frame : ℕ → List Link → List ℕ
routes_frame reserved links =
    ipc_header_bytes (record {
      magic_field = ipc_magic;
      cmd = cmd_set_routes;
      reserved = reserved;
      payload_length = (4 + link_size * length links) % 2 ^ 32;
    })
    ++ (bytes32 (length links) ++ links_bytes links)

unfoldable pub ezr_set_routes : ℤ → ℕ → List Link → Sent
ezr_set_routes g_sdk_fd reserved links =
    if is_negative g_sdk_fd then (minus_one, none) else (pos 0, some (routes_frame reserved links))

-- The frame of a path with its NUL.
abbrev pub path_frame : ℕ → Text → List ℕ
path_frame cmd path =
    let path_len = (length path + 1) % 2 ^ 32 in
    ipc_header_bytes (record {
      magic_field = ipc_magic;
      cmd = cmd;
      reserved = 0;
      payload_length = (4 + path_len) % 2 ^ 32;
    })
    ++ (bytes32 path_len ++ (path ++ 0 ∷ []))

-- `allocated` says whether `malloc` succeeded.
unfoldable pub ezr_load_plugin : ℤ → Bool → Text → Sent
ezr_load_plugin g_sdk_fd allocated path =
    if is_negative g_sdk_fd || not allocated
    then (minus_one, none)
    else (pos 0, some (path_frame cmd_load_plugin path))

unfoldable pub ezr_unload_plugin : ℤ → Bool → Text → Sent
ezr_unload_plugin g_sdk_fd allocated path =
    if is_negative g_sdk_fd || not allocated
    then (minus_one, none)
    else (pos 0, some (path_frame cmd_unload_plugin path))
