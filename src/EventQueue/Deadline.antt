-- ===== src/EventQueue/Deadline.antt =====
-- event_queue.c: the time at which a push that waits for room gives up.
use embedded_device_forwarde.Prelude.{
  ℕ, ◌+◌, ◌-◌, ◌*◌, ◌/◌, ◌%◌, ◌<◌, ◌≡◌, leb, if◌then◌else◌, arith,
}

abbrev pub push_timeout_ms : ℕ
push_timeout_ms = 100

-- `struct timespec`.
pub record Timespec : Type 0 where
  pub tv_sec : ℕ
  pub tv_nsec : ℕ

abbrev pub ns_per_s : ℕ
ns_per_s = 1000000000

-- The computation of `deadline` from the time that `clock_gettime` gives.
unfoldable pub deadline : Timespec → Timespec
deadline now =
    let sec = now.tv_sec + push_timeout_ms / 1000 in
    let nsec = now.tv_nsec + push_timeout_ms % 1000 * 1000000 in
    if leb ns_per_s nsec
    then record { tv_sec = sec + 1; tv_nsec = nsec - ns_per_s }
    else record { tv_sec = sec; tv_nsec = nsec }

abbrev pub in_ns : Timespec → ℕ
in_ns t = t.tv_sec * ns_per_s + t.tv_nsec

-- From a time with less than a second of nanoseconds, the deadline is one too, and is exactly 100 ms
-- later.
pub deadline_lem :
    (now : Timespec)
    → now.tv_nsec < ns_per_s
    → ((deadline now).tv_nsec < ns_per_s)
      × (in_ns (deadline now) ≡ in_ns now + push_timeout_ms * 1000000)
unfolding deadline
deadline_lem now h = ground arith
