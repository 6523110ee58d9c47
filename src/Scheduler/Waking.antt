-- ===== src/Scheduler/Waking.antt =====
-- kernel/src/scheduler.c: waking a task, and the tick.
use nimble_rtos.Common.{
  ℕ, ◌≡◌, refl, Bool, true, false, ◌&&◌, Option, some, none, List, [], ◌∷◌, ◌==◌, arith, Bool-cases,
  Option-cases, inl, inr, head?, ap, sym, subst,
}
use nimble_rtos.Common.Tids.{mem, distinct, remove, mem_of_head}
use nimble_rtos.Common.Words.{not_before, add32}
use nimble_rtos.Kernel.{Kernel, Status, ok, err_timeout, is_ready, is_blocked}
use nimble_rtos.Scheduler.{
  remove_link, remove_event_link, wake, wake_first, wake_waiter, expire, scan_delayed, tick,
  request_context_switch,
}
use nimble_rtos.Scheduler.Invariant.{
  WellFormed, WellFormed-ext, others-WellFormed, without, including,
}
use nimble_rtos.Scheduler.Moves.{set_tcb-WellFormed, add_ready-WellFormed, unlink-WellFormed}

pub including-without :
    (t s : ℕ) (live : ℕ → Bool) → live t ≡ true → including t (without t live) s ≡ live s
including-without t s live l = ground arith

-- A switch may be requested at any time.
pub requested-WellFormed :
    {live : ℕ → Bool} {k : Kernel} → WellFormed live k → WellFormed live (request_context_switch k)
requested-WellFormed {k} wf = others-WellFormed wf k.tick_count k.next_tcb true

-- What `wake_waiter` does, by the head of the wait list.
pub wake_waiter-none :
    (w : ℕ) (k : Kernel) → head? (k.wait_lists w) ≡ none → wake_waiter w k ≡ (none, k)
unfolding wake_waiter
wake_waiter-none w k e = ap (λ o. wake_first o k) e

pub wake_waiter-some :
    (w t : ℕ) (k : Kernel)
    → head? (k.wait_lists w) ≡ some t
    → wake_waiter w k ≡ (some t, wake t ok k)
unfolding wake_waiter
wake_waiter-some w t k e = ap (λ o. wake_first o k) e

pub wake_wait_lists :
    (t : ℕ) (result : Status) (w : ℕ) (k : Kernel)
    → (wake t result k).wait_lists w ≡ remove t (k.wait_lists w)
unfolding wake
wake_wait_lists t result w k = refl

pub wake_priority :
    (t : ℕ) (result : Status) (s : ℕ) (k : Kernel)
    → (k.tcbs s).priority ≡ ((wake t result k).tcbs s).priority
unfolding wake
wake_priority t result s k = ground arith

module _ {live : ℕ → Bool} {k : Kernel} (wf : WellFormed live k) where
  -- A waiter that wakes goes from its lists to its ready list.
  pub wake-WellFormed :
      (t : ℕ) (result : Status)
      → live t ≡ true
      → is_ready (k.tcbs t).state ≡ false
      → WellFormed live (wake t result k)
  unfolding wake remove_link remove_event_link
  wake-WellFormed t result l nr =
      WellFormed-ext (λ s. including-without t s live l)
        (add_ready-WellFormed
          (set_tcb-WellFormed (unlink-WellFormed wf t nr) t
            (record (k.tcbs t) { last_wait_result = result }) (ground arith))
          t (ground arith) (ground (arith, wf.priority t)))

  pub wake_waiter-WellFormed : (w : ℕ) → WellFormed live (wake_waiter w k).1
  wake_waiter-WellFormed w = elim (Option-cases (head? (k.wait_lists w))) [
    | inl empty ↦
        subst (λ (p : Option ℕ × Kernel). WellFormed live p.1) (sym (wake_waiter-none w k empty)) wf
    | inr (t, found) ↦
        let waits = wf.in_wait w t (mem_of_head t (k.wait_lists w) found) in
        subst (λ (p : Option ℕ × Kernel). WellFormed live p.1) (sym (wake_waiter-some w t k found))
          (wake-WellFormed t ok (ground arith) (ground arith))
  ]

  pub expire-WellFormed :
      (t : ℕ) → (live t && is_blocked (k.tcbs t).state) ≡ true → WellFormed live (expire t k)
  unfolding expire
  expire-WellFormed t b = elim (Bool-cases (not_before k.tick_count (k.tcbs t).wake_tick)) [
    | inl due ↦ rw due (wake-WellFormed t err_timeout (ground arith) (ground arith))
    | inr early ↦ rw early wf
  ]

expire_other : (s t : ℕ) (k : Kernel) → (s == t) ≡ false → (expire t k).tcbs s ≡ k.tcbs s
unfolding expire
expire_other s t k other = ground arith

pub scan_delayed-WellFormed :
    {live : ℕ → Bool} (ts : List ℕ) {k : Kernel}
    → WellFormed live k
    → distinct ts ≡ true
    → ((s : ℕ) → mem s ts ≡ true → (live s && is_blocked (k.tcbs s).state) ≡ true)
    → WellFormed live (scan_delayed ts k)
unfolding scan_delayed mem distinct
scan_delayed-WellFormed [] wf d waits = wf
scan_delayed-WellFormed (t ∷ ts) {k} wf d waits =
    scan_delayed-WellFormed ts (expire-WellFormed wf t (waits t (ground arith))) (ground arith)
      λ s h. ground (arith, waits s, expire_other s t k)

-- The tick, with every task that it wakes, keeps the kernel well formed.
pub tick-WellFormed : {live : ℕ → Bool} {k : Kernel} → WellFormed live k → WellFormed live (tick k)
unfolding tick
tick-WellFormed {live} {k} wf =
    let k' = record k { tick_count = add32 k.tick_count 1 } in
    let scanned =
      scan_delayed-WellFormed k.delayed_list {k = k'}
        (others-WellFormed wf (add32 k.tick_count 1) k.next_tcb k.pendsv_pending)
        wf.distinct_delayed wf.in_delayed in
    let after = scan_delayed k.delayed_list k' in
    others-WellFormed scanned after.tick_count after.next_tcb true
