-- ===== src/Ipc/Init.antt =====
-- ipc_server.c: `ipc_server_init`, by the results of `socket` and `bind`. That of `listen` is not
-- read, and a descriptor that could not be bound is not closed.
use embedded_device_forwarde.Prelude.{none, some, if◌then◌else◌}
use embedded_device_forwarde.Prelude.Int.{ℤ, minus_one, is_negative}
use embedded_device_forwarde.Ports.Open.{Opening, nothing, kept}

unfoldable pub ipc_server_init : ℤ → ℤ → Opening
ipc_server_init socket bind =
    if is_negative socket
    then nothing
    else if is_negative bind
    then record { fd = minus_one; obtained = some socket; closed = none }
    else kept socket

-- `g_ipc_fd` after it.
abbrev pub g_ipc_fd_after : ℤ → Opening → ℤ
g_ipc_fd_after g_ipc_fd o = if is_negative o.fd then g_ipc_fd else o.fd
