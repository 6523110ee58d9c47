-- ===== src/Scheduler/Moves.antt =====
-- kernel/src/scheduler.c: taking a task off its lists and putting it on one.
use nimble_rtos.Common.{
  ℕ, ◌<◌, ◌≡◌, Bool, true, false, not, some, ◌==◌, is_nil, arith, Bool-cases, is_nil-append, inl,
  inr, ◌⊎◌,
}
use nimble_rtos.Common.Tids.{
  mem, remove, mem-remove, mem-snoc, distinct-snoc, distinct-remove, remove_of_not_mem,
  not_nil_of_remove,
}
use nimble_rtos.Common.Bits.{test_bit, test_bit-set, test_bit-clear}
use nimble_rtos.Kernel.{Kernel, Tcb, is_ready, is_running, is_blocked, max_priorities}
use nimble_rtos.Scheduler.{
  set_tcb, remove_link, remove_event_link, insert_delayed, scheduler_remove, add_ready,
}
use nimble_rtos.Scheduler.Invariant.{WellFormed, without, including}

module _ {live : ℕ → Bool} {k : Kernel} (wf : WellFormed live k) (t : ℕ) where
  open wf use {
    in_ready, bitmap, priority, in_delayed, in_wait, one_wait, runs, distinct_ready,
    distinct_delayed, distinct_wait,
  }

  -- The bit of a list that has just lost `t`.
  bitmap-remove :
      (p : ℕ)
      → live t ≡ true
      → p < max_priorities
      → test_bit (scheduler_remove t k).ready_bitmap p ≡ not (is_nil (remove t (k.ready_lists p)))
  unfolding scheduler_remove
  bitmap-remove p l h = elim (Bool-cases ((k.tcbs t).priority == p)) [
    | inl same ↦ ground (
      arith,
      priority t,
      bitmap p h,
      not_nil_of_remove t (k.ready_lists p),
      test_bit-clear 32 k.ready_bitmap (k.tcbs t).priority p,
    )
    | inr other ↦ ground (
      arith,
      priority t,
      bitmap p h,
      in_ready p t,
      remove_of_not_mem t (k.ready_lists p),
      test_bit-clear 32 k.ready_bitmap (k.tcbs t).priority p,
    )
  ]

  -- `nimble_scheduler_remove` takes a task that is not blocked off every list.
  pub scheduler_remove-WellFormed :
      live t ≡ true
      → is_blocked (k.tcbs t).state ≡ false
      → WellFormed (without t live) (scheduler_remove t k)
  unfolding scheduler_remove
  scheduler_remove-WellFormed l nb = record {
    in_ready = λ p s. ground (arith, in_ready p s, mem-remove s t (k.ready_lists p));
    bitmap = λ p h. bitmap-remove p l h;
    priority = λ s h. ground (arith, priority s);
    in_delayed = λ s h. ground (arith, in_delayed s, mem-remove s t k.delayed_list);
    in_wait = λ w s h. ground (arith, in_wait w s);
    one_wait = one_wait;
    runs = λ s h. ground (arith, runs s);
    distinct_ready = λ p. distinct-remove t (k.ready_lists p) (distinct_ready p);
    distinct_delayed = distinct-remove t k.delayed_list distinct_delayed;
    distinct_wait = distinct_wait;
  }

  -- Unlinking both nodes takes a task that is not ready off every list.
  pub unlink-WellFormed :
      is_ready (k.tcbs t).state ≡ false
      → WellFormed (without t live) (remove_link t (remove_event_link t k))
  unfolding remove_link remove_event_link
  unlink-WellFormed nr = record {
    in_ready = λ p s. ground (arith, in_ready p s, mem-remove s t (k.ready_lists p));
    bitmap = λ p h. ground (arith, bitmap p h, in_ready p t, remove_of_not_mem t (k.ready_lists p));
    priority = λ s h. ground (arith, priority s);
    in_delayed = λ s h. ground (arith, in_delayed s, mem-remove s t k.delayed_list);
    in_wait = λ w s h. ground (arith, in_wait w s, mem-remove s t (k.wait_lists w));
    one_wait = λ v w s hv hw.
        ground
          (arith, one_wait v w s, mem-remove s t (k.wait_lists v), mem-remove s t (k.wait_lists w));
    runs = λ s h. ground (arith, runs s);
    distinct_ready = λ p. distinct-remove t (k.ready_lists p) (distinct_ready p);
    distinct_delayed = distinct-remove t k.delayed_list distinct_delayed;
    distinct_wait = λ w. distinct-remove t (k.wait_lists w) (distinct_wait w);
  }

  -- A TCB that is not in use may be written.
  pub set_tcb-WellFormed : (c : Tcb) → live t ≡ false → WellFormed live (set_tcb t c k)
  set_tcb-WellFormed c out = record {
    in_ready = λ p s. ground (arith, in_ready p s);
    bitmap = bitmap;
    priority = λ s h. ground (arith, priority s);
    in_delayed = λ s h. ground (arith, in_delayed s);
    in_wait = λ w s h. ground (arith, in_wait w s);
    one_wait = one_wait;
    runs = λ s h. ground (arith, runs s);
    distinct_ready = distinct_ready;
    distinct_delayed = distinct_delayed;
    distinct_wait = distinct_wait;
  }

  -- `nimble_scheduler_add_ready` puts a task that is on no list into use.
  pub add_ready-WellFormed :
      live t ≡ false
      → (k.tcbs t).priority < max_priorities
      → WellFormed (including t live) (add_ready t k)
  unfolding add_ready
  add_ready-WellFormed out small = record {
    in_ready = λ p s. ground (arith, in_ready p s, mem-snoc s (k.ready_lists p) t);
    bitmap = λ p h. ground (
      arith,
      bitmap p h,
      test_bit-set k.ready_bitmap (k.tcbs t).priority p,
      is_nil-append (k.ready_lists p) t,
    );
    priority = λ s h. ground (arith, priority s);
    in_delayed = λ s h. ground (arith, in_delayed s);
    in_wait = λ w s h. ground (arith, in_wait w s);
    one_wait = one_wait;
    runs = λ s h. ground (arith, runs s);
    distinct_ready =
        λ p. ground (arith, distinct_ready p, in_ready p t, distinct-snoc (k.ready_lists p) t);
    distinct_delayed = distinct_delayed;
    distinct_wait = distinct_wait;
  }

  -- A task that is on no list and is not ready comes into use as it is.
  pub admit-WellFormed :
      live t ≡ false
      → (k.tcbs t).priority < max_priorities
      → is_ready (k.tcbs t).state ≡ false
      → (is_running (k.tcbs t).state ≡ false) ⊎ (k.current_tcb ≡ some t)
      → WellFormed (including t live) k
  admit-WellFormed out small nr cur = record {
    in_ready = λ p s. ground (arith, in_ready p s);
    bitmap = bitmap;
    priority = λ s h. ground (arith, priority s);
    in_delayed = λ s h. ground (arith, in_delayed s);
    in_wait = λ w s h. ground (arith, in_wait w s);
    one_wait = one_wait;
    runs = λ s h. ground (arith, runs s);
    distinct_ready = distinct_ready;
    distinct_delayed = distinct_delayed;
    distinct_wait = distinct_wait;
  }

  pub insert_delayed-WellFormed :
      live t ≡ true
      → is_blocked (k.tcbs t).state ≡ true
      → mem t k.delayed_list ≡ false
      → WellFormed live (insert_delayed t k)
  unfolding insert_delayed
  insert_delayed-WellFormed l b out = record {
    in_ready = in_ready;
    bitmap = bitmap;
    priority = priority;
    in_delayed = λ s h. ground (arith, in_delayed s, mem-snoc s k.delayed_list t);
    in_wait = in_wait;
    one_wait = one_wait;
    runs = runs;
    distinct_ready = distinct_ready;
    distinct_delayed = distinct-snoc k.delayed_list t distinct_delayed out;
    distinct_wait = distinct_wait;
  }

  -- A write that keeps the state and the priority of a task keeps the invariant.
  pub rewrite_tcb-WellFormed :
      (c : Tcb)
      → c.state ≡ (k.tcbs t).state
      → c.priority ≡ (k.tcbs t).priority
      → WellFormed live (set_tcb t c k)
  rewrite_tcb-WellFormed c es ep = record {
    in_ready = λ p s. ground (arith, in_ready p s);
    bitmap = bitmap;
    priority = λ s h. ground (arith, priority s);
    in_delayed = λ s h. ground (arith, in_delayed s);
    in_wait = λ w s h. ground (arith, in_wait w s);
    one_wait = one_wait;
    runs = λ s h. ground (arith, runs s);
    distinct_ready = distinct_ready;
    distinct_delayed = distinct_delayed;
    distinct_wait = distinct_wait;
  }

  -- A task that is neither ready nor blocked is on no list, and may leave use.
  pub retire-WellFormed :
      is_ready (k.tcbs t).state ≡ false
      → is_blocked (k.tcbs t).state ≡ false
      → WellFormed (without t live) k
  retire-WellFormed nr nb = record {
    in_ready = λ p s. ground (arith, in_ready p s);
    bitmap = bitmap;
    priority = λ s h. ground (arith, priority s);
    in_delayed = λ s h. ground (arith, in_delayed s);
    in_wait = λ w s h. ground (arith, in_wait w s);
    one_wait = one_wait;
    runs = λ s h. ground (arith, runs s);
    distinct_ready = distinct_ready;
    distinct_delayed = distinct_delayed;
    distinct_wait = distinct_wait;
  }

  -- A task that is not ready may change its priority; a ready one would be on the wrong list.
  pub reprioritise-WellFormed :
      (p : ℕ)
      → p < max_priorities
      → is_ready (k.tcbs t).state ≡ false
      → WellFormed live (set_tcb t (record (k.tcbs t) { priority = p }) k)
  reprioritise-WellFormed p small nr = record {
    in_ready = λ q s. ground (arith, in_ready q s);
    bitmap = bitmap;
    priority = λ s h. ground (arith, priority s);
    in_delayed = λ s h. ground (arith, in_delayed s);
    in_wait = λ w s h. ground (arith, in_wait w s);
    one_wait = one_wait;
    runs = λ s h. ground (arith, runs s);
    distinct_ready = distinct_ready;
    distinct_delayed = distinct_delayed;
    distinct_wait = distinct_wait;
  }
