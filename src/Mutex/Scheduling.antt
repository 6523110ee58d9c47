-- ===== src/Mutex/Scheduling.antt =====
-- kernel/src/mutex.c: the mutex and the scheduler's structures.
use nimble_rtos.Common.{
  ℕ, ◌<◌, ◌≡◌, refl, Bool, true, false, ◌&&◌, Option, some, none, ◌==◌, arith, Bool-cases, inl, inr,
  ltb,
}
use nimble_rtos.Common.Words.{sub32}
use nimble_rtos.Kernel.{Kernel, is_ready, is_running, max_priorities, no_wait}
use nimble_rtos.Scheduler.{wake_waiter}
use nimble_rtos.Scheduler.Invariant.{WellFormed}
use nimble_rtos.Scheduler.Moves.{reprioritise-WellFormed}
use nimble_rtos.Scheduler.Waking.{wake_waiter-WellFormed, requested-WellFormed}
use nimble_rtos.Waiters.Blocking.{wait_on-WellFormed}
use nimble_rtos.Mutex.{Mutex, boost, lock_wait, lock, unlock, hand_over, restore_priority, is_owner}
use nimble_rtos.Mutex.Invariant.{mutex}

-- The owner is in use, and no boost is due while it is ready.
abbrev pub OwnerOffReady : (ℕ → Bool) → ℕ → Option ℕ → Kernel → Type 0
OwnerOffReady live self owner k =
    (o : ℕ)
    → owner ≡ some o
    → (is_ready (k.tcbs o).state && ltb (k.tcbs o).priority (k.tcbs self).priority) ≡ false

module _ {live : ℕ → Bool} {k : Kernel} (wf : WellFormed live k) (self : ℕ) (l : live self ≡ true)
    (r : is_running (k.tcbs self).state ≡ true) where
  boost-WellFormed :
      (o : ℕ)
      → (is_ready (k.tcbs o).state && ltb (k.tcbs o).priority (k.tcbs self).priority) ≡ false
      → WellFormed live (boost self o k)
  unfolding boost
  boost-WellFormed o off = elim (Bool-cases (ltb (k.tcbs o).priority (k.tcbs self).priority)) [
    | inl due ↦
        rw due
          (reprioritise-WellFormed wf o (k.tcbs self).priority (wf.priority self l) (ground arith))
    | inr high ↦ rw high wf
  ]

  boost_state : (o : ℕ) → ((boost self o k).tcbs self).state ≡ (k.tcbs self).state
  unfolding boost
  boost_state o = ground arith

  lock_wait-WellFormed :
      (o timeout : ℕ) (m : Mutex)
      → (is_ready (k.tcbs o).state && ltb (k.tcbs o).priority (k.tcbs self).priority) ≡ false
      → WellFormed live (lock_wait self o timeout m k)
  unfolding lock_wait
  lock_wait-WellFormed o timeout m off =
      wait_on-WellFormed (boost-WellFormed o off) self l (ground (arith, boost_state o)) m.waiters
        timeout

  lock_fields :
      (o : Option ℕ) (c w timeout : ℕ)
      → OwnerOffReady live self o k
      → WellFormed live (lock self timeout (mutex o c w) k).2
  unfolding lock
  lock_fields none c w timeout off = wf
  lock_fields (some o) c w timeout off = elim (Bool-cases (o == self)) [
    | inl same ↦ rw same wf
    | inr other ↦ elim (Bool-cases (timeout == no_wait)) [
      | inl now ↦ rw other (rw now wf)
      | inr later ↦
          rw other (rw later (lock_wait-WellFormed o timeout (mutex (some o) c w) (off o refl)))
    ]
  ]

  -- `lock` by the running task keeps the kernel well formed on every branch, if the owner is not
  -- at once ready and of lower priority than the caller.
  pub lock-WellFormed :
      (m : Mutex) (timeout : ℕ)
      → OwnerOffReady live self m.owner k
      → WellFormed live (lock self timeout m k).2
  lock-WellFormed m timeout off = lock_fields m.owner m.lock_count m.waiters timeout off

  hand_over_kernel :
      (m : Mutex) (p : Option ℕ × Kernel) → WellFormed live p.1 → WellFormed live (hand_over m p).2
  unfolding hand_over
  hand_over_kernel m (none, k') w = w
  hand_over_kernel m (some t, k') w = requested-WellFormed w

  -- `unlock` by the running task keeps the kernel well formed on every branch, if the base
  -- priority of the caller is in range.
  pub unlock-WellFormed :
      (m : Mutex)
      → (k.tcbs self).base_priority < max_priorities
      → WellFormed live (unlock self m k).2
  unfolding unlock restore_priority
  unlock-WellFormed m base = elim (Bool-cases (is_owner self m)) [
    | inr other ↦ rw other wf
    | inl mine ↦ elim (Bool-cases (ltb 0 (sub32 m.lock_count 1))) [
      | inl more ↦ rw mine (rw more wf)
      | inr last ↦ rw mine (
          rw last (
            hand_over_kernel m (wake_waiter m.waiters (restore_priority self k))
              (wake_waiter-WellFormed restored m.waiters)))
    ]
  ]
    where
      restored : WellFormed live (restore_priority self k)
      restored = reprioritise-WellFormed wf self (k.tcbs self).base_priority base (ground arith)
