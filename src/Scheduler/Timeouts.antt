-- ===== src/Scheduler/Timeouts.antt =====
-- kernel/src/scheduler.c: what a tick does to each task.
pub mod Sleeping
use nimble_rtos.Common.{
  ℕ, ◌≡◌, refl, Bool, true, false, not, ◌&&◌, List, [], ◌∷◌, ◌==◌, arith, if◌then◌else◌,
}
use nimble_rtos.Common.Tids.{mem, distinct, mem-remove, mem-snoc, remove}
use nimble_rtos.Common.Words.{not_before, add32}
use nimble_rtos.Kernel.{Kernel, Tcb, ready, err_timeout}
use nimble_rtos.Scheduler.{expire, scan_delayed, tick, wake}
use nimble_rtos.Scheduler.Invariant.{WellFormed}

-- `(int32_t)(tick_count - tcb->wake_tick) >= 0`
abbrev pub is_due : ℕ → ℕ → Kernel → Bool
is_due now t k = not_before now (k.tcbs t).wake_tick

abbrev timed_out : Tcb → Tcb
timed_out c = record c { last_wait_result = err_timeout; state = ready }

module _ (s t : ℕ) (k : Kernel) where
  abbrev goes : Bool
  goes = (s == t) && is_due k.tick_count s k

  expire_tick_count : (expire t k).tick_count ≡ k.tick_count
  unfolding expire wake
  expire_tick_count = ground arith

  expire_tcbs : (expire t k).tcbs s ≡ (if goes then timed_out (k.tcbs s) else k.tcbs s)
  unfolding expire wake
  expire_tcbs = ground arith

  expire_delayed : mem s (expire t k).delayed_list ≡ (mem s k.delayed_list && not goes)
  unfolding expire wake
  expire_delayed = ground (arith, mem-remove s t k.delayed_list)

  expire_wait : (w : ℕ) → mem s ((expire t k).wait_lists w) ≡ (mem s (k.wait_lists w) && not goes)
  unfolding expire wake
  expire_wait w = ground (arith, mem-remove s t (k.wait_lists w))

  expire_ready :
      (p : ℕ)
      → mem s ((expire t k).ready_lists p)
        ≡ (if goes then (k.tcbs s).priority == p else mem s (k.ready_lists p))
  unfolding expire wake
  expire_ready p =
      ground (arith, mem-remove s t (k.ready_lists p), mem-snoc s (remove t (k.ready_lists p)) t)

expire_current : (t : ℕ) (k : Kernel) → (expire t k).current_tcb ≡ k.current_tcb
unfolding expire wake
expire_current t k = ground arith

scan_current : (ts : List ℕ) (k : Kernel) → (scan_delayed ts k).current_tcb ≡ k.current_tcb
unfolding scan_delayed
scan_current [] k = refl
scan_current (t ∷ ts) k = cc (scan_current ts (expire t k), expire_current t k)

-- The scan of `ts` wakes the tasks of `ts` that are due, and leaves the others alone.
module _ (s : ℕ) where
  abbrev scanned_off : List ℕ → Kernel → Bool
  scanned_off ts k = mem s ts && is_due k.tick_count s k

  scan_tick_count : (ts : List ℕ) (k : Kernel) → (scan_delayed ts k).tick_count ≡ k.tick_count
  unfolding scan_delayed
  scan_tick_count [] k = refl
  scan_tick_count (t ∷ ts) k = cc (scan_tick_count ts (expire t k), expire_tick_count s t k)

  scan_tcbs :
      (ts : List ℕ) (k : Kernel)
      → distinct ts ≡ true
      → (scan_delayed ts k).tcbs s ≡ (if scanned_off ts k then timed_out (k.tcbs s) else k.tcbs s)
  unfolding scan_delayed mem distinct
  scan_tcbs [] k d = refl
  scan_tcbs (t ∷ ts) k d =
      ground (arith, scan_tcbs ts (expire t k), expire_tcbs s t k, expire_tick_count s t k)

  scan_delayed_list :
      (ts : List ℕ) (k : Kernel)
      → distinct ts ≡ true
      → mem s (scan_delayed ts k).delayed_list ≡ (mem s k.delayed_list && not (scanned_off ts k))
  unfolding scan_delayed mem distinct
  scan_delayed_list [] k d = ground arith
  scan_delayed_list (t ∷ ts) k d = ground (
    arith,
    scan_delayed_list ts (expire t k),
    expire_delayed s t k,
    expire_tcbs s t k,
    expire_tick_count s t k,
  )

  scan_wait :
      (w : ℕ) (ts : List ℕ) (k : Kernel)
      → distinct ts ≡ true
      → mem s ((scan_delayed ts k).wait_lists w)
        ≡ (mem s (k.wait_lists w) && not (scanned_off ts k))
  unfolding scan_delayed mem distinct
  scan_wait w [] k d = ground arith
  scan_wait w (t ∷ ts) k d = ground (
    arith,
    scan_wait w ts (expire t k),
    expire_wait s t k w,
    expire_tcbs s t k,
    expire_tick_count s t k,
  )

  scan_ready :
      (p : ℕ) (ts : List ℕ) (k : Kernel)
      → distinct ts ≡ true
      → mem s ((scan_delayed ts k).ready_lists p)
        ≡ (if scanned_off ts k then (k.tcbs s).priority == p else mem s (k.ready_lists p))
  unfolding scan_delayed mem distinct
  scan_ready p [] k d = ground arith
  scan_ready p (t ∷ ts) k d = ground (
    arith,
    scan_ready p ts (expire t k),
    expire_ready s t k p,
    expire_tcbs s t k,
    expire_tick_count s t k,
  )

pub tick_counts : (k : Kernel) → (tick k).tick_count ≡ add32 k.tick_count 1
unfolding tick
tick_counts k =
    let k' = record k { tick_count = add32 k.tick_count 1 } in scan_tick_count 0 k'.delayed_list k'

-- The delayed tasks that the next tick wakes.
abbrev pub wakes_next : ℕ → Kernel → Bool
wakes_next t k = mem t k.delayed_list && is_due (add32 k.tick_count 1) t k

pub record Ticked (k k' : Kernel) : Type 0 where
  pub counted : k'.tick_count ≡ add32 k.tick_count 1
  pub switch_due : k'.pendsv_pending ≡ true
  pub same_current : k'.current_tcb ≡ k.current_tcb
  pub woken :
      (t : ℕ)
      → wakes_next t k ≡ true
      → ((k'.tcbs t).state ≡ ready)
        × ((k'.tcbs t).last_wait_result ≡ err_timeout)
        × (mem t (k'.ready_lists (k.tcbs t).priority) ≡ true)
        × (mem t k'.delayed_list ≡ false)
        × ((w : ℕ) → mem t (k'.wait_lists w) ≡ false)
  pub others :
      (t : ℕ)
      → wakes_next t k ≡ false
      → (k'.tcbs t ≡ k.tcbs t)
        × (mem t k'.delayed_list ≡ mem t k.delayed_list)
        × ((w : ℕ) → mem t (k'.wait_lists w) ≡ mem t (k.wait_lists w))
        × ((p : ℕ) → mem t (k'.ready_lists p) ≡ mem t (k.ready_lists p))

module _ {live : ℕ → Bool} {k : Kernel} (wf : WellFormed live k) where
  abbrev counted_up : Kernel
  counted_up = record k { tick_count = add32 k.tick_count 1 }

  -- The tick of a well-formed kernel advances the count by one modulo 2^32 and requests a switch;
  -- a delayed task is woken with the result TIMEOUT exactly if its wake tick is not after the new
  -- count, and then it is ready and on no delay or wait list; every other task keeps its TCB and
  -- its places.
  pub tick-Ticked : Ticked k (tick k)
  unfolding tick
  tick-Ticked =
      let ts = k.delayed_list in
      let d = wf.distinct_delayed in
      record {
        counted = scan_tick_count 0 ts counted_up;
        switch_due = refl;
        same_current = scan_current ts counted_up;
        woken = λ t h. (
          ground (arith, scan_tcbs t ts counted_up),
          ground (arith, scan_tcbs t ts counted_up),
          ground (arith, scan_ready t (k.tcbs t).priority ts counted_up),
          ground (arith, scan_delayed_list t ts counted_up),
          λ w. ground (arith, scan_wait t w ts counted_up),
        );
        others = λ t h. (
          ground (arith, scan_tcbs t ts counted_up),
          ground (arith, scan_delayed_list t ts counted_up),
          (λ w. ground (arith, scan_wait t w ts counted_up)),
          λ p. ground (arith, scan_ready t p ts counted_up),
        );
      }

  -- A tick changes no base priority.
  pub tick_bases : (t : ℕ) → ((tick k).tcbs t).base_priority ≡ (k.tcbs t).base_priority
  unfolding tick
  tick_bases t = ground (arith, scan_tcbs t k.delayed_list counted_up, wf.distinct_delayed)
