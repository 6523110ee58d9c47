-- ===== src/Semaphore.antt =====
-- kernel/src/semaphore.c: the counting semaphore. `take` is the part up to the context switch,
-- `take_resume` the part behind it.
pub mod Invariant
pub mod Giving
use nimble_rtos.Common.{
  ℕ, Option, none, some, Bool, true, false, ◌==◌, ltb, if◌then◌else◌, update, [],
}
use nimble_rtos.Common.Words.{add32, sub32}
use nimble_rtos.Kernel.{Status, ok, err_timeout, Kernel, no_wait}
use nimble_rtos.Scheduler.{wake_waiter, remove_event_link, request_context_switch}
use nimble_rtos.Waiters.{Outcome, returned, waits, wait_on}

pub record Semaphore : Type 0 where
  pub count : ℕ
  pub max_count : ℕ
  pub waiters : ℕ

unfoldable pub semaphore_init : ℕ → ℕ → ℕ → Kernel → Semaphore × Kernel
semaphore_init initial_count max_count waiters k = (
  record { count = initial_count; max_count = max_count; waiters = waiters },
  record k { wait_lists = update k.wait_lists waiters [] },
)

-- `nimble_semaphore_take` of the running task `self`, up to the context switch.
unfoldable pub take : ℕ → ℕ → Semaphore → Kernel → Outcome × Semaphore × Kernel
take self timeout_ticks sem k =
    if ltb 0 sem.count
    then (returned ok, record sem { count = sub32 sem.count 1 }, k)
    else if timeout_ticks == no_wait
    then (returned err_timeout, sem, k)
    else (waits, sem, wait_on sem.waiters timeout_ticks self k)

-- The rest of `nimble_semaphore_take`, when the task runs again.
unfoldable pub take_resume : ℕ → Kernel → Status × Kernel
take_resume self k = ((k.tcbs self).last_wait_result, remove_event_link self k)

-- `if (sem->count < sem->max_count) sem->count++;`
unfoldable pub count_up : Semaphore → Semaphore
count_up sem = if ltb sem.count sem.max_count then record sem { count = add32 sem.count 1 } else sem

-- A waiter that was woken has the unit; else it is counted.
unfoldable pub given : Semaphore → Option ℕ × Kernel → Status × Semaphore × Kernel
given sem (none, k) = (ok, count_up sem, k)
given sem (some woken, k) = (ok, sem, request_context_switch k)

unfoldable pub give : Semaphore → Kernel → Status × Semaphore × Kernel
give sem k = given sem (wake_waiter sem.waiters k)

-- The interrupt's version: `*needs_yield` in place of the request.
unfoldable pub given_from_isr : Semaphore → Option ℕ × Kernel → Status × Bool × Semaphore × Kernel
given_from_isr sem (none, k) = (ok, false, count_up sem, k)
given_from_isr sem (some woken, k) = (ok, true, sem, k)

unfoldable pub give_from_isr : Semaphore → Kernel → Status × Bool × Semaphore × Kernel
give_from_isr sem k = given_from_isr sem (wake_waiter sem.waiters k)
