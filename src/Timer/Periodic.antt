-- ===== src/Timer/Periodic.antt =====
-- kernel/src/timer.c: when a periodic timer fires next, and how long the service task waits.
use nimble_rtos.Common.{ℕ, ◌^◌, ◌<◌, ◌≡◌, true, false, some, arith, if◌then◌else◌, head?, leb}
use nimble_rtos.Common.Words.{add32, sub32, not_before, word}
use nimble_rtos.Kernel.{no_wait}
use nimble_rtos.Timer.{Timer, Service, next_expiry, after, service_wait, expiry_of}

-- For a timer that is due, with ticks below 2^32 and a period below 2^31: the next expiry is one
-- period after the last one, if the service task is at most one period late, and else one period
-- from now.
pub next_expiry_lem :
    (now : ℕ) (c : Timer)
    → now < word
    → c.expiry_tick < word
    → c.period_ticks < 2 ^ 31
    → not_before now c.expiry_tick ≡ true
    → next_expiry now c ≡ (
        if leb (sub32 now c.expiry_tick) c.period_ticks
        then add32 c.expiry_tick c.period_ticks
        else add32 now c.period_ticks)
unfolding next_expiry not_before sub32 add32
next_expiry_lem now c small fits short due = ground arith

pub record WaitsUntil (now expiry ticks : ℕ) : Type 0 where
  pub later : after expiry now ≡ true → (add32 now ticks ≡ expiry) × (0 < ticks) × (ticks < 2 ^ 31)
  pub at_once : after expiry now ≡ false → ticks ≡ no_wait

-- With ticks below 2^32, if `t` is the first active timer, the service task waits exactly until
-- its expiry, or not at all if it is due.
pub service_wait-WaitsUntil :
    (now t : ℕ) (s : Service)
    → now < word
    → expiry_of s t < word
    → head? s.active_timers ≡ some t
    → WaitsUntil now (expiry_of s t) (service_wait now s)
unfolding service_wait add32 sub32 not_before
service_wait-WaitsUntil now t s small fits first = record {
  later = λ h. (ground arith, ground arith, ground arith);
  at_once = λ h. ground arith;
}
