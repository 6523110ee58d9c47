-- ===== src/Mutex/Invariant.antt =====
-- kernel/src/mutex.c: what `lock` and `unlock` keep of a mutex and its waiters.
pub mod Waiting
pub use nimble_rtos.Mutex.Invariant.Waiting.{MutexValid, mutex, lock_wait-MutexValid}
use nimble_rtos.Common.{
  ℕ, ◌<◌, ◌≤◌, ◌-◌, ◌+◌, ◌%◌, ◌≡◌, refl, true, false, ◌&&◌, Option, some, none, List, [], ◌∷◌, ◌==◌,
  arith, Bool-cases, Option-cases, inl, inr, if◌then◌else◌, ==_iff, subst, sym, ltb, head?,
}
use nimble_rtos.Common.Tids.{mem, remove, mem-remove}
use nimble_rtos.Common.Words.{add32, sub32, word}
use nimble_rtos.Kernel.{Kernel, ok, no_wait}
use nimble_rtos.Scheduler.{prepare_block, wake, wake_waiter, request_context_switch}
use nimble_rtos.Waiters.{insert_sorted, wait_on, insert_waiter_priority_sorted, priority_of}
use nimble_rtos.Waiters.Sorted.{
  is_sorted, is_sorted_ext, is_sorted-remove, head_is_highest, mem-insert_sorted,
  insert_sorted-is_sorted,
}
use nimble_rtos.Scheduler.Waking.{
  wake_waiter-none, wake_waiter-some, wake_wait_lists, wake_priority,
}
use nimble_rtos.Mutex.{Mutex, boost, lock_wait, lock, unlock, hand_over, restore_priority, is_owner}

module _ {k : Kernel} (self timeout : ℕ) where
  lock_fields :
      (o : Option ℕ) (c w : ℕ)
      → MutexValid (mutex o c w) k
      → c < word - 1
      → let r = lock self timeout (mutex o c w) k in MutexValid r.1 r.2
  unfolding lock mem add32
  lock_fields none c w v room = record {
    free = λ e. cc;
    held = λ p e. (omega arith, omega arith);
    not_self = λ p e. ground (arith, v.free);
    ordered = v.ordered;
    inherits = λ p t e mt. ground (arith, v.free);
  }
  lock_fields (some o) c w v room = elim (Bool-cases (o == self)) [
    | inl same ↦ rw same (record {
      free = λ e. cc;
      held = λ p e. let before = v.held o refl in (omega arith, omega arith);
      not_self = v.not_self;
      ordered = v.ordered;
      inherits = v.inherits;
    })
    | inr other ↦ elim (Bool-cases (timeout == no_wait)) [
      | inl now ↦ rw other (rw now v)
      | inr later ↦ rw other (rw later (lock_wait-MutexValid self timeout o c w v other))
    ]
  ]

-- `lock` keeps a valid mutex valid on every branch, if the lock count is below its largest value:
-- a free mutex has count 0 and no waiter, a held one a count of at least 1, the owner does not
-- wait for it, the waiters are sorted by priority, and the owner has at least the priority of each
-- waiter.
pub lock-MutexValid :
    {m : Mutex} {k : Kernel}
    → MutexValid m k
    → (self timeout : ℕ) → m.lock_count < word - 1
    → let r = lock self timeout m k in MutexValid r.1 r.2
lock-MutexValid {m} v self timeout room =
    lock_fields self timeout m.owner m.lock_count m.waiters v room

nil_of_head : (xs : List ℕ) → head? xs ≡ none → xs ≡ []
nil_of_head [] e = refl
nil_of_head (x ∷ xs) e = cc

-- The first waiter is the most urgent, so it inherits from those that stay.
woken-MutexValid :
    (t w : ℕ) (k : Kernel)
    → is_sorted (priority_of k) (k.wait_lists w) ≡ true
    → head? (k.wait_lists w) ≡ some t
    → MutexValid (mutex (some t) 1 w) (wake t ok k)
woken-MutexValid t w k so first = record {
  free = λ e. cc;
  held = λ o e. (omega arith, omega arith);
  not_self = λ o e. ground (arith, wake_wait_lists t ok w k, mem-remove o t (k.wait_lists w));
  ordered = rw (wake_wait_lists t ok w k) (
      is_sorted_ext (priority_of k) _ (remove t (k.wait_lists w)) (λ s m. wake_priority t ok s k)
        (is_sorted-remove (priority_of k) t (k.wait_lists w) so));
  inherits = λ o s e m. ground (
    arith,
    wake_wait_lists t ok w k,
    mem-remove s t (k.wait_lists w),
    wake_priority t ok s k,
    wake_priority t ok o k,
    head_is_highest (priority_of k) t s (k.wait_lists w) so first,
  );
}

requested-MutexValid :
    {m : Mutex} {k : Kernel} → MutexValid m k → MutexValid m (request_context_switch k)
requested-MutexValid v = record {
  free = v.free;
  held = v.held;
  not_self = v.not_self;
  ordered = v.ordered;
  inherits = v.inherits;
}

hand_over-MutexValid :
    (o : Option ℕ) (c w : ℕ) (k : Kernel)
    → is_sorted (priority_of k) (k.wait_lists w) ≡ true
    → let r = hand_over (mutex o c w) (wake_waiter w k) in MutexValid r.1 r.2
unfolding hand_over
hand_over-MutexValid o c w k so = elim (Option-cases (head? (k.wait_lists w))) [
  | inl nobody ↦
      let empty : k.wait_lists w ≡ [] = nil_of_head (k.wait_lists w) nobody in
      subst (λ (p : Option ℕ × Kernel). let r = hand_over (mutex o c w) p in MutexValid r.1 r.2)
        (sym (wake_waiter-none w k nobody))
        (record {
          free = λ e. (refl, empty);
          held = λ p e. cc;
          not_self = λ p e. cc;
          ordered = so;
          inherits = λ p t e m. cc;
        })
  | inr (t, first) ↦
      subst (λ (p : Option ℕ × Kernel). let r = hand_over (mutex o c w) p in MutexValid r.1 r.2)
        (sym (wake_waiter-some w t k first))
        (requested-MutexValid (woken-MutexValid t w k so first))
]

restore_other :
    (self s : ℕ) (k : Kernel)
    → (self == s) ≡ false
    → priority_of k s ≡ priority_of (restore_priority self k) s
unfolding restore_priority
restore_other self s k other = ground arith

-- Giving up a boost does not disturb the order of the waiters, since the owner is not one of them.
pub restore_sorted :
    {o c w : ℕ} {k : Kernel}
    → MutexValid (mutex (some o) c w) k
    → is_sorted (priority_of (restore_priority o k)) (k.wait_lists w) ≡ true
restore_sorted {o} {c} {w} {k} v =
    is_sorted_ext (priority_of k) (priority_of (restore_priority o k)) (k.wait_lists w)
      (λ s m. ground (arith, v.not_self o, restore_other o s k)) v.ordered

module _ {k : Kernel} (self : ℕ) where
  last_unlock :
      (o c w : ℕ)
      → MutexValid (mutex (some o) c w) k
      → (o == self) ≡ true
      → let r = hand_over (mutex (some o) c w) (wake_waiter w (restore_priority self k)) in
        MutexValid r.1 r.2
  unfolding restore_priority
  last_unlock o c w v mine = hand_over-MutexValid (some o) c w (restore_priority self k) (
      subst (λ (x : ℕ). is_sorted (priority_of (restore_priority x k)) (k.wait_lists w) ≡ true)
        ((==_iff o self).0 mine) (restore_sorted v))

  unlock_fields :
      (o : Option ℕ) (c w : ℕ)
      → MutexValid (mutex o c w) k
      → let r = unlock self (mutex o c w) k in MutexValid r.1 r.2
  unfolding unlock sub32 is_owner
  unlock_fields none c w v = v
  unlock_fields (some o) c w v = elim (Bool-cases (o == self)) [
    | inl mine ↦ elim (Bool-cases (ltb 0 ((c + word - 1) % word))) [
      | inl more ↦ rw mine (
          rw more (record {
            free = λ e. cc;
            held = λ p e. (ground arith, omega arith);
            not_self = v.not_self;
            ordered = v.ordered;
            inherits = v.inherits;
          }))
      | inr last ↦ rw mine (rw last (last_unlock o c w v mine))
    ]
    | inr other ↦ rw other v
  ]

-- `unlock` keeps a valid mutex valid on every branch, whoever calls it: the new owner, if there is
-- one, again has at least the priority of each waiter that stays.
pub unlock-MutexValid :
    {m : Mutex} {k : Kernel}
    → MutexValid m k
    → (self : ℕ) → let r = unlock self m k in MutexValid r.1 r.2
unlock-MutexValid {m} v self = unlock_fields self m.owner m.lock_count m.waiters v
