-- ===== src/Semaphore/Invariant.antt =====
-- kernel/src/semaphore.c: the count against its maximum and the waiters.
use nimble_rtos.Common.{
  ℕ, ◌<◌, ◌≤◌, ◌≡◌, refl, true, Option, some, none, List, [], ◌∷◌, ◌==◌, arith, Bool-cases,
  Option-cases, inl, inr, subst, sym, ltb, head?,
}
use nimble_rtos.Common.Tids.{remove}
use nimble_rtos.Common.Words.{add32, sub32, word}
use nimble_rtos.Kernel.{Kernel, ok, no_wait}
use nimble_rtos.Scheduler.{wake, request_context_switch}
use nimble_rtos.Scheduler.Waking.{
  wake_waiter-none, wake_waiter-some, wake_wait_lists, wake_priority,
}
use nimble_rtos.Waiters.{insert_sorted, wait_on, priority_of}
use nimble_rtos.Waiters.Sorted.{is_sorted, is_sorted_ext, is_sorted-remove, insert_sorted-is_sorted}
use nimble_rtos.Waiters.Blocking.{wait_on_lists, wait_on_priority}
use nimble_rtos.Semaphore.{Semaphore, take, given, count_up, give}

pub record SemaphoreValid (s : Semaphore) (k : Kernel) : Type 0 where
  pub bounded : s.count ≤ s.max_count
  pub fits : s.max_count < word
  pub unit_or_waiter : 0 < s.count → k.wait_lists s.waiters ≡ []
  pub ordered : is_sorted (priority_of k) (k.wait_lists s.waiters) ≡ true

module _ {s : Semaphore} {k : Kernel} (v : SemaphoreValid s k) where
  wait_on_own :
      (timeout self : ℕ)
      → (wait_on s.waiters timeout self k).wait_lists s.waiters
        ≡ insert_sorted (priority_of k) self (k.wait_lists s.waiters)
  wait_on_own timeout self = ground (arith, wait_on_lists s.waiters timeout self s.waiters k)

  -- `take` keeps a valid semaphore valid on every branch: the count is at most its maximum, a
  -- semaphore with a unit has no waiter, and the waiters are sorted by priority.
  pub take-SemaphoreValid :
      (self timeout : ℕ) → let r = take self timeout s k in SemaphoreValid r.1 r.2
  unfolding take sub32
  take-SemaphoreValid self timeout = elim (Bool-cases (ltb 0 s.count)) [
    | inl some_left ↦ rw some_left (record {
      bounded = let below = v.bounded in let small = v.fits in ground arith;
      fits = v.fits;
      unit_or_waiter = λ h. v.unit_or_waiter (ground arith);
      ordered = v.ordered;
    })
    | inr nothing ↦ elim (Bool-cases (timeout == no_wait)) [
      | inl now ↦ rw nothing (rw now v)
      | inr later ↦ rw nothing (
          rw later (record {
            bounded = v.bounded;
            fits = v.fits;
            unit_or_waiter = λ h. absurd (ground arith);
            ordered = rw (wait_on_own timeout self) (
                is_sorted_ext (priority_of k) _ _
                  (λ t m. wait_on_priority s.waiters timeout self t k)
                  (insert_sorted-is_sorted (priority_of k) self (k.wait_lists s.waiters)
                    v.ordered));
          }))
    ]
  ]

  woken-SemaphoreValid :
      (t : ℕ) → head? (k.wait_lists s.waiters) ≡ some t → SemaphoreValid s (wake t ok k)
  woken-SemaphoreValid t first = record {
    bounded = v.bounded;
    fits = v.fits;
    unit_or_waiter = λ h. absurd (cc (v.unit_or_waiter h));
    ordered = rw (wake_wait_lists t ok s.waiters k) (
        is_sorted_ext (priority_of k) _ (remove t (k.wait_lists s.waiters))
          (λ x m. wake_priority t ok x k)
          (is_sorted-remove (priority_of k) t (k.wait_lists s.waiters) v.ordered));
  }

  counted-SemaphoreValid : k.wait_lists s.waiters ≡ [] → SemaphoreValid (count_up s) k
  unfolding count_up add32
  counted-SemaphoreValid empty = elim (Bool-cases (ltb s.count s.max_count)) [
    | inl room ↦ rw room (record {
      bounded = let small = v.fits in ground arith;
      fits = v.fits;
      unit_or_waiter = λ h. empty;
      ordered = v.ordered;
    })
    | inr full ↦ rw full v
  ]

requested-SemaphoreValid :
    {s : Semaphore} {k : Kernel} → SemaphoreValid s k → SemaphoreValid s (request_context_switch k)
requested-SemaphoreValid v = record {
  bounded = v.bounded;
  fits = v.fits;
  unit_or_waiter = v.unit_or_waiter;
  ordered = v.ordered;
}

nil_of_head : (xs : List ℕ) → head? xs ≡ none → xs ≡ []
nil_of_head [] e = refl
nil_of_head (x ∷ xs) e = cc

-- `give` keeps a valid semaphore valid on every branch.
pub give-SemaphoreValid :
    {s : Semaphore} {k : Kernel} → SemaphoreValid s k → let r = give s k in SemaphoreValid r.1 r.2
unfolding give given
give-SemaphoreValid {s} {k} v = elim (Option-cases (head? (k.wait_lists s.waiters))) [
  | inl nobody ↦
      subst (λ (p : Option ℕ × Kernel). let r = given s p in SemaphoreValid r.1 r.2)
        (sym (wake_waiter-none s.waiters k nobody))
        (counted-SemaphoreValid v (nil_of_head (k.wait_lists s.waiters) nobody))
  | inr (t, first) ↦
      subst (λ (p : Option ℕ × Kernel). let r = given s p in SemaphoreValid r.1 r.2)
        (sym (wake_waiter-some s.waiters t k first))
        (requested-SemaphoreValid (woken-SemaphoreValid v t first))
]

-- `take` and `give` keep a valid semaphore valid on every branch: the count is at most its
-- maximum, a semaphore with a unit has no waiter, and the waiters are sorted by priority.
pub SemaphoreValid-kept :
    {s : Semaphore} {k : Kernel}
    → SemaphoreValid s k
    → (self timeout : ℕ)
    → (let r = take self timeout s k in SemaphoreValid r.1 r.2)
      × (let r = give s k in SemaphoreValid r.1 r.2)
SemaphoreValid-kept v self timeout = (take-SemaphoreValid v self timeout, give-SemaphoreValid v)
