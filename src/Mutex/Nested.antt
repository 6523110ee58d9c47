-- ===== src/Mutex/Nested.antt =====
-- kernel/src/mutex.c: what the last unlock of a mutex does to the other mutexes.
use nimble_rtos.Common.{
  ℕ, ◌≤◌, ◌≡◌, ◌↔◌, refl, true, false, Option, some, ◌==◌, arith, Bool-cases, Option-cases, inl,
  inr, subst, sym, head?, ==_iff, ◌∙◌, ap,
}
use nimble_rtos.Common.Tids.{mem, remove, mem_of_head, remove_of_not_mem}
use nimble_rtos.Common.Words.{sub32}
use nimble_rtos.Kernel.{Kernel, ok}
use nimble_rtos.Scheduler.{wake}
use nimble_rtos.Scheduler.Waking.{
  wake_waiter-none, wake_waiter-some, wake_wait_lists, wake_priority,
}
use nimble_rtos.Waiters.{priority_of}
use nimble_rtos.Waiters.Sorted.{is_sorted_ext}
use nimble_rtos.Mutex.{Mutex, unlock, hand_over, restore_priority, is_owner}
use nimble_rtos.Mutex.Invariant.{mutex, MutexValid}

-- The waiters of the mutex that is unlocked wait for no other, and the caller does not wait.
pub record Apart (self a : ℕ) (other : Mutex) (k : Kernel) : Type 0 where
  pub elsewhere :
      (t : ℕ) → mem t (k.wait_lists a) ≡ true → mem t (k.wait_lists other.waiters) ≡ false
  pub awake : mem self (k.wait_lists other.waiters) ≡ false

-- The list `v` stays, and so do the priorities but that of `self`.
record Dropped (self v : ℕ) (k k' : Kernel) : Type 0 where
  pub same_list : k'.wait_lists v ≡ k.wait_lists v
  pub own : priority_of k' self ≡ (k.tcbs self).base_priority
  pub others : (s : ℕ) → (s == self) ≡ false → priority_of k' s ≡ priority_of k s

restored-Dropped : (self v : ℕ) (k : Kernel) → Dropped self v k (restore_priority self k)
unfolding restore_priority
restored-Dropped self v k = record {
  same_list = refl;
  own = ground arith;
  others = λ s other. ground arith;
}

woken-Dropped :
    (self t v : ℕ) (k : Kernel)
    → mem t (k.wait_lists v) ≡ false
    → Dropped self v k (wake t ok (restore_priority self k))
woken-Dropped self t v k out =
    let r = restored-Dropped self v k in
    let q = restore_priority self k in
    record {
      same_list =
          wake_wait_lists t ok v q
          ∙ (ap (remove t) r.same_list ∙ remove_of_not_mem t (k.wait_lists v) out);
      own = sym (wake_priority t ok self q) ∙ r.own;
      others = λ s other. sym (wake_priority t ok s q) ∙ r.others s other;
    }

restored_head :
    (self a : ℕ) (k : Kernel)
    → head? ((restore_priority self k).wait_lists a) ≡ head? (k.wait_lists a)
unfolding restore_priority
restored_head self a k = refl

requested-Dropped :
    {self v : ℕ} {k k' : Kernel}
    → Dropped self v k k'
    → Dropped self v k (record k' { pendsv_pending = true })
requested-Dropped d = record { same_list = d.same_list; own = d.own; others = d.others }

unlock-Dropped :
    (self a v : ℕ) (k : Kernel)
    → ((t : ℕ) → mem t (k.wait_lists a) ≡ true → mem t (k.wait_lists v) ≡ false)
    → Dropped self v k (unlock self (mutex (some self) 1 a) k).2
unfolding unlock is_owner sub32 hand_over
unlock-Dropped self a v k apart =
    let same : (self == self) ≡ true = ground arith in
    let q = restore_priority self k in
    rw same (elim (Option-cases (head? (k.wait_lists a))) [
      | inl nobody ↦
          subst
            (λ (p : Option ℕ × Kernel). Dropped self v k (hand_over (mutex (some self) 1 a) p).2)
            (sym (wake_waiter-none a q (restored_head self a k ∙ nobody)))
            (restored-Dropped self v k)
      | inr (t, first) ↦
          subst
            (λ (p : Option ℕ × Kernel). Dropped self v k (hand_over (mutex (some self) 1 a) p).2)
            (sym (wake_waiter-some a t q (restored_head self a k ∙ first)))
            (requested-Dropped
              (woken-Dropped self t v k (apart t (mem_of_head t (k.wait_lists a) first))))
    ])

-- No task that waits for the mutex, if `self` owns it, has a priority above the base priority of `self`.
abbrev pub BaseEnough : ℕ → Mutex → Kernel → Type 0
BaseEnough self other k =
    other.owner ≡ some self
    → (t : ℕ) → mem t (k.wait_lists other.waiters) ≡ true
    → priority_of k t ≤ (k.tcbs self).base_priority

module _ {self a : ℕ} {k k' : Kernel} (other : Mutex) (v : MutexValid other k)
    (apart : Apart self a other k) (d : Dropped self other.waiters k k') where
  waiter_kept :
      (t : ℕ) → mem t (k.wait_lists other.waiters) ≡ true → priority_of k' t ≡ priority_of k t
  waiter_kept t m = d.others t (ground (arith, apart.awake))

  stays_valid : BaseEnough self other k → MutexValid other k'
  stays_valid enough = record {
    free = λ e. let f = v.free e in (f.0, d.same_list ∙ f.1);
    held = v.held;
    not_self = λ o e. let n = v.not_self o e in rw d.same_list n;
    ordered = rw d.same_list (
        is_sorted_ext (priority_of k) (priority_of k') (k.wait_lists other.waiters)
          (λ t m. sym (waiter_kept t m)) v.ordered);
    inherits = λ o t e m.
        let m' : mem t (k.wait_lists other.waiters) ≡ true = ap (mem t) (sym d.same_list) ∙ m in
        let kept = waiter_kept t m' in
        let before = v.inherits o t e m' in
        elim (Bool-cases (o == self)) [
          | inl mine ↦
              let same : o ≡ self = (==_iff o self).0 mine in
              let low = enough (e ∙ ap some same) t m' in
              let own : priority_of k' o ≡ (k.tcbs self).base_priority =
                ap (priority_of k') same ∙ d.own in
              omega (arith, low, own, kept)
          | inr theirs ↦ let same = d.others o theirs in omega (arith, same, kept, before)
        ];
  }

  was_enough : MutexValid other k' → BaseEnough self other k
  was_enough v' mine t m =
      let after = v'.inherits self t mine (ap (mem t) d.same_list ∙ m) in
      omega (arith, after, waiter_kept t m, d.own)

-- The last unlock of a mutex by a task that does not wait for another, valid one, in a kernel in
-- which no task waits for both: the other mutex is still valid exactly if the caller does not own
-- it or no waiter of it outranks the base priority of the caller, to which the caller is put back.
pub unlock-OthersValid :
    {self a : ℕ} {k : Kernel} (other : Mutex)
    → MutexValid other k
    → Apart self a other k
    → MutexValid other (unlock self (mutex (some self) 1 a) k).2 ↔ BaseEnough self other k
unlock-OthersValid {self} {a} {k} other v apart =
    let d = unlock-Dropped self a other.waiters k apart.elsewhere in
    (was_enough other v apart d, stays_valid other v apart d)
