-- ===== src/Mutex/Invariant/Waiting.antt =====
-- kernel/src/mutex.c: the mutex against its waiters and their priorities, and a task that begins to wait.
use nimble_rtos.Common.{
  ℕ, ◌<◌, ◌≤◌, ◌≡◌, true, false, ◌&&◌, Option, some, none, [], ◌==◌, arith, if◌then◌else◌, ltb,
}
use nimble_rtos.Common.Tids.{mem}
use nimble_rtos.Common.Words.{word}
use nimble_rtos.Kernel.{Kernel}
use nimble_rtos.Scheduler.{prepare_block}
use nimble_rtos.Waiters.{insert_sorted, wait_on, insert_waiter_priority_sorted, priority_of}
use nimble_rtos.Waiters.Sorted.{
  is_sorted, is_sorted_ext, mem-insert_sorted, insert_sorted-is_sorted,
}
use nimble_rtos.Scheduler.Waking.{}
use nimble_rtos.Mutex.{Mutex, boost, lock_wait}

pub record MutexValid (m : Mutex) (k : Kernel) : Type 0 where
  pub free : m.owner ≡ none → (m.lock_count ≡ 0) × (k.wait_lists m.waiters ≡ [])
  pub held : (o : ℕ) → m.owner ≡ some o → (0 < m.lock_count) × (m.lock_count < word)
  pub not_self : (o : ℕ) → m.owner ≡ some o → mem o (k.wait_lists m.waiters) ≡ false
  pub ordered : is_sorted (priority_of k) (k.wait_lists m.waiters) ≡ true
  pub inherits :
      (o t : ℕ)
      → m.owner ≡ some o
      → mem t (k.wait_lists m.waiters) ≡ true
      → (k.tcbs t).priority ≤ (k.tcbs o).priority

abbrev pub mutex : Option ℕ → ℕ → ℕ → Mutex
mutex o c w = record { owner = o; lock_count = c; waiters = w }

-- What blocking on the mutex does to its wait list and to the priorities.
lock_wait_list :
    (self o timeout c w : ℕ) (k : Kernel)
    → (lock_wait self o timeout (mutex (some o) c w) k).wait_lists w
      ≡ insert_sorted (priority_of (boost self o k)) self (k.wait_lists w)
unfolding lock_wait boost wait_on insert_waiter_priority_sorted prepare_block
lock_wait_list self o timeout c w k = ground arith

lock_wait_priority :
    (self o timeout c w t : ℕ) (k : Kernel)
    → (o == self) ≡ false
    → ((lock_wait self o timeout (mutex (some o) c w) k).tcbs t).priority ≡ (
        if (o == t) && ltb (k.tcbs o).priority (k.tcbs self).priority
        then (k.tcbs self).priority
        else (k.tcbs t).priority)
unfolding lock_wait boost wait_on insert_waiter_priority_sorted prepare_block
lock_wait_priority self o timeout c w t k other = ground arith

boost_priority :
    (self o timeout c w t : ℕ) (k : Kernel)
    → priority_of (boost self o k) t
      ≡ priority_of (lock_wait self o timeout (mutex (some o) c w) k) t
unfolding lock_wait boost wait_on insert_waiter_priority_sorted prepare_block
boost_priority self o timeout c w t k = ground arith

boost_other :
    (self o s : ℕ) (k : Kernel)
    → (o == s) ≡ false
    → priority_of k s ≡ priority_of (boost self o k) s
unfolding boost
boost_other self o s k other = ground arith

module _ {k : Kernel} (self timeout : ℕ) where
  pub lock_wait-MutexValid :
      (o c w : ℕ)
      → MutexValid (mutex (some o) c w) k
      → (o == self) ≡ false
      → MutexValid (mutex (some o) c w) (lock_wait self o timeout (mutex (some o) c w) k)
  lock_wait-MutexValid o c w v other =
      let prio : ℕ → ℕ = priority_of (boost self o k) in
      record {
        free = λ e. cc;
        held = v.held;
        not_self = λ p e.
            rw (lock_wait_list self o timeout c w k)
              (ground (arith, v.not_self p, mem-insert_sorted prio p self (k.wait_lists w)));
        ordered = rw (lock_wait_list self o timeout c w k) ordered';
        inherits = λ p t e mt. ground (
          arith,
          v.inherits p t,
          lock_wait_list self o timeout c w k,
          lock_wait_priority self o timeout c w t k,
          lock_wait_priority self o timeout c w p k,
          mem-insert_sorted prio t self (k.wait_lists w),
        );
      }
    where
      boosted :
          (t : ℕ)
          → priority_of (boost self o k) t
            ≡ priority_of (lock_wait self o timeout (mutex (some o) c w) k) t
      boosted t = boost_priority self o timeout c w t k

      ordered' :
          is_sorted
            (priority_of (lock_wait self o timeout (mutex (some o) c w) k))
            (insert_sorted (priority_of (boost self o k)) self (k.wait_lists w))
          ≡ true
      ordered' =
          is_sorted_ext (priority_of (boost self o k)) _ _ (λ s m. boosted s)
            (insert_sorted-is_sorted (priority_of (boost self o k)) self (k.wait_lists w) (
              is_sorted_ext (priority_of k) (priority_of (boost self o k)) (k.wait_lists w)
                (λ s m. ground (arith, v.not_self o, boost_other self o s k)) v.ordered))
