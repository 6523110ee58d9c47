-- ===== src/Waiters/Blocking.antt =====
-- kernel/src/mutex.c, semaphore.c and queue.c: how a call blocks, into the sorted list by the task's
-- `event_link`, and off the ready side.
use nimble_rtos.Common.{
  ℕ, ◌≡◌, refl, Bool, true, false, ◌==◌, arith, Bool-cases, inl, inr, if◌then◌else◌, update,
}
use nimble_rtos.Common.Tids.{mem, mem-remove}
use nimble_rtos.Kernel.{Kernel, Tcb, blocked, is_blocked, wait_forever}
use nimble_rtos.Scheduler.{set_tcb, set_state, scheduler_remove, prepare_block, block_current_delay}
use nimble_rtos.Scheduler.Invariant.{WellFormed, WellFormed-ext, without, including}
use nimble_rtos.Scheduler.Moves.{
  scheduler_remove-WellFormed, set_tcb-WellFormed, admit-WellFormed, insert_delayed-WellFormed,
  rewrite_tcb-WellFormed,
}
use nimble_rtos.Scheduler.Waking.{requested-WellFormed}
use nimble_rtos.Waiters.{wait_on, insert_sorted, insert_waiter_priority_sorted, priority_of}
use nimble_rtos.Waiters.Sorted.{mem-insert_sorted, distinct-insert_sorted}

including-without :
    (t s : ℕ) (live : ℕ → Bool) → live t ≡ true → including t (without t live) s ≡ live s
including-without t s live l = ground arith

-- A wait list with one more waiter, sorted by the priorities `prio`.
abbrev with_waiter : ℕ → (ℕ → ℕ) → ℕ → Kernel → Kernel
with_waiter w prio t k = record k {
  wait_lists = update k.wait_lists w (insert_sorted prio t (k.wait_lists w));
}

with_waiter-WellFormed :
    {live : ℕ → Bool} {k : Kernel}
    → WellFormed live k
    → (w : ℕ) (prio : ℕ → ℕ) (t : ℕ) → live t ≡ true
    → is_blocked (k.tcbs t).state ≡ true
    → ((v : ℕ) → mem t (k.wait_lists v) ≡ false)
    → WellFormed live (with_waiter w prio t k)
with_waiter-WellFormed {live} {k} wf w prio t l b out = record {
  in_ready = wf.in_ready;
  bitmap = wf.bitmap;
  priority = wf.priority;
  in_delayed = wf.in_delayed;
  in_wait = λ v s h. ground (arith, wf.in_wait v s, mem-insert_sorted prio s t (k.wait_lists w));
  one_wait = λ u v s hu hv.
      ground (arith, wf.one_wait u v s, out u, out v, mem-insert_sorted prio s t (k.wait_lists w));
  runs = wf.runs;
  distinct_ready = wf.distinct_ready;
  distinct_delayed = wf.distinct_delayed;
  distinct_wait = λ v.
      ground (arith, wf.distinct_wait v, out w, distinct-insert_sorted prio t (k.wait_lists w));
}

module _ {live : ℕ → Bool} {k : Kernel} (wf : WellFormed live k) (t : ℕ) (l : live t ≡ true)
    (nb : is_blocked (k.tcbs t).state ≡ false) where
  -- Off every list, and marked as blocked.
  off_and_blocked :
      (c : Tcb)
      → is_blocked c.state ≡ true
      → c.priority ≡ (k.tcbs t).priority
      → WellFormed live (set_tcb t c (scheduler_remove t k))
  off_and_blocked c b same =
      WellFormed-ext (λ s. including-without t s live l)
        (admit-WellFormed
          (set_tcb-WellFormed (scheduler_remove-WellFormed wf t l nb) t c (ground arith)) t
          (ground arith) (ground (arith, wf.priority t)) (ground arith) (inl (ground arith)))

  off_delayed : mem t (scheduler_remove t k).delayed_list ≡ false
  unfolding scheduler_remove
  off_delayed = ground (arith, mem-remove t t k.delayed_list)

  pub block_current_delay-WellFormed :
      (wake_tick : ℕ) → WellFormed live (block_current_delay t wake_tick k)
  unfolding block_current_delay
  block_current_delay-WellFormed wake_tick =
      insert_delayed-WellFormed
        (off_and_blocked
          (record ((scheduler_remove t k).tcbs t) { wake_tick = wake_tick; state = blocked }) refl
          refl)
        t l (ground arith) off_delayed

  pub prepare_block-WellFormed : (timeout : ℕ) → WellFormed live (prepare_block t timeout k)
  unfolding prepare_block
  prepare_block-WellFormed timeout = elim (Bool-cases (timeout == wait_forever)) [
    | inl forever ↦ rw forever off
    | inr limited ↦ rw limited (
        insert_delayed-WellFormed (rewrite_tcb-WellFormed off t _ refl refl) t l (ground arith)
          off_delayed)
  ]
    where
      off : WellFormed live (set_state t blocked (scheduler_remove t k))
      off = off_and_blocked (record ((scheduler_remove t k).tcbs t) { state = blocked }) refl refl

  -- The task is on no wait list before.
  off_wait : (w : ℕ) → mem t (k.wait_lists w) ≡ false
  off_wait w = ground (arith, wf.in_wait w t)

  blocked_after : (timeout : ℕ) → is_blocked ((prepare_block t timeout k).tcbs t).state ≡ true
  unfolding prepare_block
  blocked_after timeout = ground arith

  off_wait_after : (timeout v : ℕ) → mem t ((prepare_block t timeout k).wait_lists v) ≡ false
  unfolding prepare_block scheduler_remove
  off_wait_after timeout v = ground (arith, off_wait v)

  linked :
      (w timeout : ℕ)
      → WellFormed live (with_waiter w (priority_of k) t (prepare_block t timeout k))
  linked w timeout =
      with_waiter-WellFormed (prepare_block-WellFormed timeout) w (priority_of k) t l
        (blocked_after timeout) (off_wait_after timeout)

  -- The event link goes in before the task is marked as blocked.
  pub block_on-WellFormed :
      (w timeout : ℕ)
      → WellFormed live (prepare_block t timeout (insert_waiter_priority_sorted w t k))
  unfolding prepare_block insert_waiter_priority_sorted
  block_on-WellFormed w timeout = elim (Bool-cases (timeout == wait_forever)) [
    | inl forever ↦ let whole = linked w timeout in rw forever (rw forever at whole)
    | inr limited ↦ let whole = linked w timeout in rw limited (rw limited at whole)
  ]

  -- A task in use that is not blocked can wait on any object, with any timeout, and the kernel
  -- stays well formed.
  pub wait_on-WellFormed : (w timeout : ℕ) → WellFormed live (wait_on w timeout t k)
  unfolding wait_on
  wait_on-WellFormed w timeout = requested-WellFormed (block_on-WellFormed w timeout)

-- What blocking does to the wait lists and to the priorities.
pub wait_on_lists :
    (w timeout t v : ℕ) (k : Kernel)
    → (wait_on w timeout t k).wait_lists v
      ≡ (if w == v then insert_sorted (priority_of k) t (k.wait_lists w) else k.wait_lists v)
unfolding wait_on insert_waiter_priority_sorted prepare_block
wait_on_lists w timeout t v k = ground arith

pub wait_on_priority :
    (w timeout t s : ℕ) (k : Kernel) → priority_of k s ≡ priority_of (wait_on w timeout t k) s
unfolding wait_on insert_waiter_priority_sorted prepare_block
wait_on_priority w timeout t s k = ground arith
