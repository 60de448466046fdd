-- ===== src/Registry/Clock.antt =====
-- registry.c: `registry_now_ms`, from what `clock_gettime` gives.
use embedded_device_forwarde.Prelude.{ℕ, ◌+◌, ◌*◌, ◌/◌, ◌%◌, ◌^◌, ◌<◌, ◌≡◌, arith}

-- Both operations are on `uint64_t`.
unfoldable pub registry_now_ms : ℕ → ℕ → ℕ
registry_now_ms tv_sec tv_nsec = (tv_sec * 1000 % 2 ^ 64 + tv_nsec / 1000000) % 2 ^ 64

-- For 2 ^ 54 seconds the clock does not wrap: it is the number of whole milliseconds.
pub registry_now_ms_lem :
    (tv_sec tv_nsec : ℕ)
    → tv_sec < 2 ^ 54
    → tv_nsec < 1000000000
    → registry_now_ms tv_sec tv_nsec ≡ (tv_sec * 1000000000 + tv_nsec) / 1000000
unfolding registry_now_ms
registry_now_ms_lem tv_sec tv_nsec s n = omega arith
