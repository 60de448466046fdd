-- ===== src/Reactor/Fds.antt =====
-- reactor.c: `reactor_fds`, the array by which `reactor_clear_fds` finds what to stop watching. It is
-- indexed by the fd, and holds 64 entries.
use embedded_device_forwarde.Prelude.{
  ℕ, List, [], ◌∷◌, Option, none, some, replicate, set, ltb, length, if◌then◌else◌,
}
use embedded_device_forwarde.Prelude.Int.{ℤ, pos, negsuc, minus_one}

abbrev pub max_react_fds : ℕ
max_react_fds = 64

abbrev pub no_fds : List ℤ
no_fds = replicate max_react_fds (pos 0)

-- `reactor_add_fd(fd)`; none is the write behind the end of the array, which has no defined effect.
unfoldable pub reactor_add_fd : ℤ → List ℤ → Option (List ℤ)
reactor_add_fd (negsuc n) fds = some fds
reactor_add_fd (pos n) fds = if ltb n (length fds) then some (set fds n (pos n)) else none

-- `reactor_clear_fds`: the array after it, and the fds that epoll stops watching.
unfoldable pub reactor_clear_fds : List ℤ → List ℤ × List ℤ
reactor_clear_fds [] = ([], [])
reactor_clear_fds (pos n ∷ fds) =
    let rest = reactor_clear_fds fds in
    if ltb 0 n then (minus_one ∷ rest.0, pos n ∷ rest.1) else (pos n ∷ rest.0, rest.1)
reactor_clear_fds (negsuc n ∷ fds) = let rest = reactor_clear_fds fds in (negsuc n ∷ rest.0, rest.1)
