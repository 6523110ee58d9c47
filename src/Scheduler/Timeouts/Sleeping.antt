-- ===== src/Scheduler/Timeouts/Sleeping.antt =====
-- kernel/src/scheduler.c: a tick and a task that still waits behind it.
use nimble_rtos.Common.{ℕ, ◌≡◌, refl, true, false, ◌&&◌, List, [], ◌∷◌, arith}
use nimble_rtos.Common.Tids.{mem}
use nimble_rtos.Common.Words.{add32}
use nimble_rtos.Kernel.{Kernel}
use nimble_rtos.Scheduler.{expire, scan_delayed, tick, wake}
use nimble_rtos.Scheduler.Timeouts.{is_due, expire_tick_count, expire_wait, expire_delayed}

module _ (s : ℕ) where
  expire_wake_tick : (t : ℕ) (k : Kernel) → ((expire t k).tcbs s).wake_tick ≡ (k.tcbs s).wake_tick
  unfolding expire wake
  expire_wake_tick t k = ground arith

  scan_wake_tick :
      (ts : List ℕ) (k : Kernel) → ((scan_delayed ts k).tcbs s).wake_tick ≡ (k.tcbs s).wake_tick
  unfolding scan_delayed
  scan_wake_tick [] k = refl
  scan_wake_tick (t ∷ ts) k = cc (scan_wake_tick ts (expire t k), expire_wake_tick t k)

  -- Who still waits did so before, and was not due if it was scanned.
  scan_still_waits :
      (w : ℕ) (ts : List ℕ) (k : Kernel)
      → mem s ((scan_delayed ts k).wait_lists w) ≡ true
      → (mem s (k.wait_lists w) ≡ true) × ((mem s ts && is_due k.tick_count s k) ≡ false)
  unfolding scan_delayed mem
  scan_still_waits w [] k m = (m, refl)
  scan_still_waits w (t ∷ ts) k m =
      let rest = scan_still_waits w ts (expire t k) m in
      ground (arith, expire_wait s t k w, expire_wake_tick t k, expire_tick_count s t k)

  scan_still_delayed :
      (ts : List ℕ) (k : Kernel)
      → is_due k.tick_count s k ≡ false
      → mem s k.delayed_list ≡ true
      → mem s (scan_delayed ts k).delayed_list ≡ true
  unfolding scan_delayed
  scan_still_delayed [] k undue m = m
  scan_still_delayed (t ∷ ts) k undue m =
      let same = expire_wake_tick t k in
      let clock = expire_tick_count s t k in
      let listed = expire_delayed s t k in
      scan_still_delayed ts (expire t k) (ground arith) (ground arith)

  pub tick_wake_tick : (k : Kernel) → ((tick k).tcbs s).wake_tick ≡ (k.tcbs s).wake_tick
  unfolding tick
  tick_wake_tick k =
      let k' = record k { tick_count = add32 k.tick_count 1 } in scan_wake_tick k'.delayed_list k'

  pub tick_still_waits :
      (w : ℕ) (k : Kernel)
      → mem s ((tick k).wait_lists w) ≡ true
      → (mem s (k.wait_lists w) ≡ true)
        × ((mem s k.delayed_list && is_due (add32 k.tick_count 1) s k) ≡ false)
  unfolding tick
  tick_still_waits w k m =
      let k' = record k { tick_count = add32 k.tick_count 1 } in
      scan_still_waits w k'.delayed_list k' m

  pub tick_still_delayed :
      (k : Kernel)
      → is_due (add32 k.tick_count 1) s k ≡ false
      → mem s k.delayed_list ≡ true
      → mem s (tick k).delayed_list ≡ true
  unfolding tick
  tick_still_delayed k undue m =
      let k' = record k { tick_count = add32 k.tick_count 1 } in
      scan_still_delayed k'.delayed_list k' undue m
