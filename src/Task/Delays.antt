-- ===== src/Task/Delays.antt =====
-- kernel/src/task.c: how long `nimble_task_delay` lasts.
use nimble_rtos.Common.{ℕ, zero, suc, ◌^◌, ◌<◌, ◌≡◌, refl, Bool, true, false, arith}
use nimble_rtos.Common.Tids.{mem, mem-snoc, remove}
use nimble_rtos.Common.Words.{add32, word, not_before-deadline}
use nimble_rtos.Kernel.{Kernel, ready, blocked, err_timeout, is_blocked}
use nimble_rtos.Scheduler.{tick, block_current_delay}
use nimble_rtos.Scheduler.Invariant.{WellFormed}
use nimble_rtos.Scheduler.Waking.{tick-WellFormed}
use nimble_rtos.Scheduler.Timeouts.{tick-Ticked, wakes_next}
use nimble_rtos.Task.{delay_task}
use nimble_rtos.Task.Lifecycle.{delay_task-WellFormed}

-- `n` ticks in a row.
unfoldable pub ticks : ℕ → Kernel → Kernel
ticks zero k = k
ticks (suc n) k = tick (ticks n k)

pub record SleepsFor (n t : ℕ) (k : Kernel) : Type 0 where
  pub asleep :
      (j : ℕ) → j < n → ((ticks j k).tcbs t ≡ k.tcbs t) × (mem t (ticks j k).delayed_list ≡ true)
  pub wakes : ((ticks n k).tcbs t).state ≡ ready
  pub reports : ((ticks n k).tcbs t).last_wait_result ≡ err_timeout

module _ {live : ℕ → Bool} {k : Kernel} (wf : WellFormed live k) (fits : k.tick_count < word) where
  ticks-WellFormed : (j : ℕ) → WellFormed live (ticks j k)
  unfolding ticks
  ticks-WellFormed zero = wf
  ticks-WellFormed (suc j) = tick-WellFormed (ticks-WellFormed j)

  ticks_count : (j : ℕ) → (ticks j k).tick_count ≡ add32 k.tick_count j
  unfolding ticks add32
  ticks_count zero = omega (arith, fits)
  ticks_count (suc j) =
      let step = (tick-Ticked (ticks-WellFormed j)).counted in omega (arith, step, ticks_count j)

  module _ (t n : ℕ) (positive : 0 < n) (short : n < 2 ^ 31) (listed : mem t k.delayed_list ≡ true)
      (due : (k.tcbs t).wake_tick ≡ add32 k.tick_count n) where
    next_count : (j : ℕ) → add32 (ticks j k).tick_count 1 ≡ add32 k.tick_count (suc j)
    unfolding add32
    next_count j = omega (arith, ticks_count j)

    asleep_until :
        (j : ℕ) → j < n → ((ticks j k).tcbs t ≡ k.tcbs t) × (mem t (ticks j k).delayed_list ≡ true)
    unfolding ticks
    asleep_until zero h = (refl, listed)
    asleep_until (suc j) h =
        let (same, still) = asleep_until j (omega arith) in
        let after = (tick-Ticked (ticks-WellFormed j)).others t in
        let early =
          not_before-deadline k.tick_count n (suc j) positive (omega arith) (omega arith) in
        let stays : wakes_next t (ticks j k) ≡ false = ground (arith, next_count j) in
        ground (arith, after stays)

    woken_at :
        (j : ℕ)
        → suc j ≡ n
        → (((ticks (suc j) k).tcbs t).state ≡ ready)
          × (((ticks (suc j) k).tcbs t).last_wait_result ≡ err_timeout)
    unfolding ticks
    woken_at j h =
        let (same, still) = asleep_until j (omega arith) in
        let over =
          not_before-deadline k.tick_count n (suc j) positive (omega arith) (omega arith) in
        let now : wakes_next t (ticks j k) ≡ true = ground (arith, next_count j) in
        let woken = (tick-Ticked (ticks-WellFormed j)).woken t now in (woken.0, woken.1)

  pub delayed-SleepsFor :
      (t n : ℕ)
      → 0 < n
      → n < 2 ^ 31
      → mem t k.delayed_list ≡ true
      → (k.tcbs t).wake_tick ≡ add32 k.tick_count n
      → SleepsFor n t k
  delayed-SleepsFor t zero positive short listed due = absurd (omega arith)
  delayed-SleepsFor t (suc j) positive short listed due =
      let woken = woken_at t (suc j) positive short listed due j refl in
      record {
        asleep = asleep_until t (suc j) positive short listed due;
        wakes = woken.0;
        reports = woken.1;
      }

-- In a well-formed kernel with a tick count below 2^32, a delay of `n` ticks, 0 < n < 2^31, by a
-- task in use that is not blocked: the task is blocked, after each number of ticks below `n` it
-- has the same TCB and is on the delayed list, and after exactly `n` ticks it is ready, its wait
-- having the result TIMEOUT.
pub delay_task-SleepsFor :
    {live : ℕ → Bool} {k : Kernel}
    → WellFormed live k
    → k.tick_count < word
    → (self n : ℕ) → live self ≡ true
    → is_blocked (k.tcbs self).state ≡ false
    → 0 < n
    → n < 2 ^ 31
    → (((delay_task self n k).tcbs self).state ≡ blocked) × SleepsFor n self (delay_task self n k)
unfolding delay_task block_current_delay
delay_task-SleepsFor {live} {k} wf fits self n l nb positive short = (
  ground arith,
  delayed-SleepsFor (delay_task-WellFormed wf self n l nb) fits self n positive short
      (ground (arith, mem-snoc self (remove self k.delayed_list) self)) (ground arith),
)
