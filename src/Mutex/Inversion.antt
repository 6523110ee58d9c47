-- ===== src/Mutex/Inversion.antt =====
-- kernel/src/mutex.c: the boost of an owner that is ready, and the context switch after it.
use nimble_rtos.Common.{
  ℕ, ◌<◌, ◌≤◌, ◌≡◌, ◌≢◌, refl, Bool, true, false, some, ◌==◌, arith, subst, sym, is_nil,
}
use nimble_rtos.Common.Tids.{mem, remove, mem-remove, head_of_not_nil, mem_of_head, not_nil_of_mem}
use nimble_rtos.Common.Bits.{test_bit}
use nimble_rtos.Kernel.{Kernel, is_ready, is_running, is_blocked, no_wait}
use nimble_rtos.Scheduler.{scheduler_remove, prepare_block, requeue_current, pick, pendsv}
use nimble_rtos.Scheduler.Invariant.{WellFormed}
use nimble_rtos.Scheduler.Moves.{scheduler_remove-WellFormed}
use nimble_rtos.Scheduler.Selection.{highest_set_bit_lem, after_pick, PickedFrom, pick_task}
use nimble_rtos.Scheduler.Switching.{after_switch, pendsv-pick, pendsv-PickedFrom}
use nimble_rtos.Waiters.{Outcome, waits, wait_on, insert_waiter_priority_sorted}
use nimble_rtos.Mutex.{Mutex, boost, lock_wait, lock}
use nimble_rtos.Mutex.Invariant.{mutex}

-- `self` runs, `medium` and the owner `o` are ready, and the three differ in priority.
pub record Contended (live : ℕ → Bool) (k : Kernel) (self medium o : ℕ) : Type 0 where
  pub current : k.current_tcb ≡ some self
  pub self_live : live self ≡ true
  pub self_runs : is_running (k.tcbs self).state ≡ true
  pub medium_live : live medium ≡ true
  pub medium_ready : is_ready (k.tcbs medium).state ≡ true
  pub owner_live : live o ≡ true
  pub owner_ready : is_ready (k.tcbs o).state ≡ true
  pub above_owner : (k.tcbs o).priority < (k.tcbs medium).priority
  pub below_self : (k.tcbs medium).priority < (k.tcbs self).priority

module _ {live : ℕ → Bool} {k : Kernel} {self medium o : ℕ} (wf : WellFormed live k)
    (h : Contended live k self medium o) (timeout : ℕ) (m : Mutex) where
  open h use {
    current, self_live, self_runs, medium_live, medium_ready, owner_live, owner_ready, above_owner,
    below_self,
  }

  abbrev after : Kernel
  after = lock_wait self o timeout m k

  distinct_tasks : ((o == self) ≡ false) × ((medium == self) ≡ false)
  distinct_tasks = (ground arith, ground arith)

  after_ready : (p : ℕ) → after.ready_lists p ≡ remove self (k.ready_lists p)
  unfolding lock_wait boost wait_on insert_waiter_priority_sorted prepare_block
  after_ready p = ground arith

  after_bitmap : after.ready_bitmap ≡ (scheduler_remove self k).ready_bitmap
  unfolding lock_wait boost wait_on insert_waiter_priority_sorted prepare_block
  after_bitmap = ground (arith, distinct_tasks)

  boosted : (after.tcbs o).priority ≡ (k.tcbs self).priority
  unfolding lock_wait boost wait_on insert_waiter_priority_sorted prepare_block
  boosted = ground (arith, distinct_tasks)

  self_blocked : is_blocked (after.tcbs self).state ≡ true
  unfolding lock_wait boost wait_on insert_waiter_priority_sorted prepare_block
  self_blocked = ground arith

  after_current : after.current_tcb ≡ some self
  unfolding lock_wait boost wait_on insert_waiter_priority_sorted prepare_block
  after_current = ground arith

  -- The bit of the medium task is still set.
  medium_bit : test_bit after.ready_bitmap (k.tcbs medium).priority ≡ true
  unfolding scheduler_remove
  medium_bit =
      let gone = scheduler_remove-WellFormed wf self self_live (ground arith) in
      let p : ℕ = (k.tcbs medium).priority in
      ground (
        arith,
        after_bitmap,
        wf.priority medium,
        gone.bitmap p,
        gone.in_ready p medium,
        distinct_tasks,
        not_nil_of_mem medium (remove self (k.ready_lists p)),
      )

  abbrev cleared : Kernel
  cleared = record after { pendsv_pending = false }

  -- The caller has blocked, so nothing is requeued.
  no_requeue : requeue_current cleared ≡ cleared
  unfolding requeue_current
  no_requeue = ground (arith, self_blocked, after_current)

  owner_off_high : (p : ℕ) → (k.tcbs medium).priority ≤ p → mem o (after.ready_lists p) ≡ false
  owner_off_high p high =
      ground (arith, after_ready p, mem-remove o self (k.ready_lists p), wf.in_ready p o)

  picked_not_owner : (t : ℕ) (q : Kernel) → PickedFrom cleared t q → t ≢ o
  picked_not_owner t q from =
      let (p, bit, small, set, top) =
        highest_set_bit_lem after.ready_bitmap (k.tcbs medium).priority
          (wf.priority medium medium_live) medium_bit in
      let same : from.index ≡ p = ground (arith, from.highest_bit) in
      let held = mem_of_head t (after.ready_lists from.index) from.first in
      λ e. ground (
        arith,
        top (k.tcbs medium).priority,
        wf.priority medium,
        medium_bit,
        owner_off_high from.index,
      )

  -- The lists and the bitmap still agree, so the switch finds a task.
  some_task : (t : ℕ) × (pendsv after ≡ some (after_switch t (requeue_current cleared)))
  unfolding scheduler_remove
  some_task =
      let (p, bit, small, set, top) =
        highest_set_bit_lem after.ready_bitmap (k.tcbs medium).priority
          (wf.priority medium medium_live) medium_bit in
      let gone = scheduler_remove-WellFormed wf self self_live (ground arith) in
      let full : is_nil (cleared.ready_lists p) ≡ false =
        ground (arith, after_bitmap, after_ready p, gone.bitmap p) in
      let (t, first) = head_of_not_nil (cleared.ready_lists p) full in
      let chosen : pick cleared ≡ some (t, after_pick t cleared) =
        pick_task cleared p t bit first in
      (
        t,
        pendsv-pick after t
            (subst (λ (x : Kernel). pick x ≡ some (t, after_pick t x)) (sym no_requeue) chosen),
      )

  not_owner : (k' : Kernel) → pendsv after ≡ some k' → k'.current_tcb ≢ some o
  not_owner k' e =
      let (t, q, from, current) = pendsv-PickedFrom after k' e in
      let other = picked_not_owner t q (subst (λ (x : Kernel). PickedFrom x t q) no_requeue from) in
      λ c. other (ground arith)

  still_listed : mem o (after.ready_lists (k.tcbs o).priority) ≡ true
  still_listed = ground (
    arith,
    after_ready (k.tcbs o).priority,
    mem-remove o self (k.ready_lists (k.tcbs o).priority),
    wf.in_ready (k.tcbs o).priority o,
    distinct_tasks,
    owner_live,
  )

-- The caller waits and the owner has its priority; the owner stays on the list of its old priority;
-- and the switch that follows runs another task.
pub record InversionAfter (k : Kernel) (self o : ℕ) (r : Outcome × Mutex × Kernel) : Type 0 where
  pub outcome : r.0 ≡ waits
  pub boosted_to : (r.2.tcbs o).priority ≡ (k.tcbs self).priority
  pub listed : mem o (r.2.ready_lists (k.tcbs o).priority) ≡ true
  pub next : Kernel
  pub switches : pendsv r.2 ≡ some next
  pub other_runs : next.current_tcb ≢ some o

-- In a well-formed kernel where the running task `self` asks for a mutex whose owner is ready,
-- with a ready task of a priority strictly between the two, and is willing to wait: `self` waits
-- and the owner gets its priority, but the owner stays on the ready list of its old priority, and
-- the switch that follows runs a task other than the owner.
pub lock-InversionAfter :
    {live : ℕ → Bool} {k : Kernel} {self medium o : ℕ}
    → WellFormed live k
    → Contended live k self medium o
    → (timeout count w : ℕ) → timeout ≢ no_wait
    → InversionAfter k self o (lock self timeout (mutex (some o) count w) k)
unfolding lock
lock-InversionAfter {k} {self} {medium} {o} wf h timeout count w later =
    let m = mutex (some o) count w in
    let (t, found) = some_task wf h timeout m in
    let e : (o == self) ≡ false = (distinct_tasks wf h timeout m).0 in
    let f : (timeout == no_wait) ≡ false = ground arith in
    rw e (
      rw f (record {
        outcome = refl;
        boosted_to = boosted wf h timeout m;
        listed = still_listed wf h timeout m;
        next = after_switch t (requeue_current (cleared wf h timeout m));
        switches = found;
        other_runs = not_owner wf h timeout m _ found;
      }))
