-- ===== src/Mutex/Handover.antt =====
-- kernel/src/mutex.c: recursive locking, the last unlock, and the call of a task that is not the owner.
use nimble_rtos.Common.{
  ℕ, ◌<◌, ◌+◌, ◌-◌, ◌%◌, ◌≡◌, ◌≢◌, refl, true, false, Option, some, ◌==◌, arith, subst, sym, ltb,
  head?,
}
use nimble_rtos.Common.Words.{add32, sub32, word}
use nimble_rtos.Kernel.{Kernel, Status, ok, err_not_owner}
use nimble_rtos.Scheduler.{wake}
use nimble_rtos.Scheduler.Waking.{wake_waiter-some, wake_priority}
use nimble_rtos.Waiters.{returned, priority_of}
use nimble_rtos.Waiters.Sorted.{is_sorted}
use nimble_rtos.Waiters.Woken.{Woken, wake-Woken, requested-Woken}
use nimble_rtos.Mutex.{Mutex, lock, unlock, hand_over, restore_priority, is_owner}
use nimble_rtos.Mutex.Invariant.{mutex, MutexValid, restore_sorted}

-- For a mutex held by the caller with a count between 1 and 2^32 - 2, locking once more returns OK
-- at once, and unlocking then leaves the mutex and the kernel as they were.
pub unlock-lock :
    (self timeout count w : ℕ) (k : Kernel)
    → 0 < count
    → count < word - 1
    → let r = lock self timeout (mutex (some self) count w) k in
      (r.0 ≡ returned ok) × (unlock self r.1 r.2 ≡ (ok, mutex (some self) count w, k))
unfolding lock unlock is_owner add32 sub32
unlock-lock self timeout count w k held room =
    let same : (self == self) ≡ true = ground arith in
    let back : ((count + 1) % word + word - 1) % word ≡ count = omega arith in
    let more : ltb 0 count ≡ true = ground arith in rw same (refl, rw same (rw back (rw more refl)))

-- An unlock by a task that is not the owner returns NOT_OWNER and changes neither the mutex nor
-- the kernel.
pub unlock_not_owner :
    (self : ℕ) (m : Mutex) (k : Kernel)
    → m.owner ≢ some self
    → unlock self m k ≡ (err_not_owner, m, k)
unfolding unlock is_owner
unlock_not_owner self m k other = let e : is_owner self m ≡ false = ground arith in rw e

-- The last unlock with a waiter: `t` owns the mutex and is ready, and the caller is back at its base
-- priority.
pub record HandedOver (self w : ℕ) (k : Kernel) (t : ℕ) (r : Status × Mutex × Kernel) : Type 0 where
  pub status : r.0 ≡ ok
  pub owned : r.1 ≡ mutex (some t) 1 w
  pub woken : Woken w (restore_priority self k) t r.2
  pub restored : priority_of r.2 self ≡ (k.tcbs self).base_priority
  pub switch_due : r.2.pendsv_pending ≡ true

restored_head :
    (self w t : ℕ) (k : Kernel)
    → head? (k.wait_lists w) ≡ some t
    → head? ((restore_priority self k).wait_lists w) ≡ some t
unfolding restore_priority
restored_head self w t k e = e

restored_order :
    {self c w : ℕ} {k : Kernel}
    → MutexValid (mutex (some self) c w) k
    → is_sorted (priority_of (restore_priority self k)) ((restore_priority self k).wait_lists w)
      ≡ true
unfolding restore_priority
restored_order v = restore_sorted v

restored_base :
    (self t : ℕ) (k : Kernel)
    → priority_of (wake t ok (restore_priority self k)) self ≡ (k.tcbs self).base_priority
unfolding restore_priority
restored_base self t k = ground (arith, wake_priority t ok self (restore_priority self k))

-- The last unlock of a valid mutex whose wait list starts with `t` returns OK, makes `t` the owner
-- with count 1 and ready, puts the caller back at its base priority, and requests a switch.
pub unlock-HandedOver :
    {self w : ℕ} {k : Kernel}
    → MutexValid (mutex (some self) 1 w) k
    → (t : ℕ) → head? (k.wait_lists w) ≡ some t
    → HandedOver self w k t (unlock self (mutex (some self) 1 w) k)
unfolding unlock is_owner sub32 hand_over
unlock-HandedOver {self} {w} {k} v t first =
    let same : (self == self) ≡ true = ground arith in
    rw same (
      subst (λ (p : Option ℕ × Kernel). HandedOver self w k t (hand_over (mutex (some self) 1 w) p))
        (sym (wake_waiter-some w t (restore_priority self k) (restored_head self w t k first)))
        (record {
          status = refl;
          owned = refl;
          woken = requested-Woken (
              wake-Woken w t (restore_priority self k) (restored_order v)
                (restored_head self w t k first));
          restored = restored_base self t k;
          switch_due = refl;
        }))
