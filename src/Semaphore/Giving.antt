-- ===== src/Semaphore/Giving.antt =====
-- kernel/src/semaphore.c: what a give does to the waiters and to the count.
use nimble_rtos.Common.{
  ℕ, ◌<◌, ◌≤◌, ◌+◌, ◌≡◌, refl, Bool, true, false, Option, some, none, ◌==◌, arith, Bool-cases, inl,
  inr, if◌then◌else◌, subst, sym, ltb, head?,
}
use Prim.Native.Nat.{min}
use nimble_rtos.Common.Words.{add32, word}
use nimble_rtos.Kernel.{Kernel, Status, ok, no_wait, is_blocked}
use nimble_rtos.Scheduler.{wake_waiter, request_context_switch}
use nimble_rtos.Scheduler.Invariant.{WellFormed}
use nimble_rtos.Scheduler.Waking.{
  wake_waiter-none, wake_waiter-some, wake_waiter-WellFormed, requested-WellFormed,
}
use nimble_rtos.Waiters.Woken.{Woken, wake-Woken, requested-Woken}
use nimble_rtos.Waiters.Blocking.{wait_on-WellFormed}
use nimble_rtos.Semaphore.{Semaphore, take, given, count_up, give, given_from_isr, give_from_isr}
use nimble_rtos.Semaphore.Invariant.{SemaphoreValid}

count_up-min :
    (s : Semaphore)
    → s.count ≤ s.max_count
    → s.max_count < word
    → (count_up s).count ≡ min (s.count + 1) s.max_count
unfolding count_up add32
count_up-min s b f = ground arith

count_up-max : (s : Semaphore) → (count_up s).max_count ≡ s.max_count
unfolding count_up
count_up-max s = ground arith

-- The outcome of handing the unit to the waiter `t`.
pub record HandedTo (s : Semaphore) (k : Kernel) (t : ℕ) (r : Status × Semaphore × Kernel)
    : Type 0 where
  pub status : r.0 ≡ ok
  pub same : r.1 ≡ s
  pub woken : Woken s.waiters k t r.2
  pub switch_due : r.2.pendsv_pending ≡ true

-- A give on a valid semaphore whose wait list starts with `t` returns OK, leaves the count alone,
-- makes `t` ready with the result OK and off every wait and delay list, `t` having the highest
-- priority of the waiters and all other tasks unchanged, and requests a switch.
pub give-HandedTo :
    {s : Semaphore} {k : Kernel}
    → SemaphoreValid s k
    → (t : ℕ) → head? (k.wait_lists s.waiters) ≡ some t
    → HandedTo s k t (give s k)
unfolding give given
give-HandedTo {s} {k} v t first =
    subst (λ (p : Option ℕ × Kernel). HandedTo s k t (given s p))
      (sym (wake_waiter-some s.waiters t k first))
      (record {
        status = refl;
        same = refl;
        woken = requested-Woken (wake-Woken s.waiters t k v.ordered first);
        switch_due = refl;
      })

-- A give on a valid semaphore without waiters returns OK, adds one to the count up to the maximum,
-- and leaves the kernel alone.
pub give_counts :
    {s : Semaphore} {k : Kernel}
    → SemaphoreValid s k
    → head? (k.wait_lists s.waiters) ≡ none
    → let r = give s k in
      (r.0 ≡ ok)
      × (r.1.count ≡ min (s.count + 1) s.max_count)
      × (r.1.max_count ≡ s.max_count)
      × (r.2 ≡ k)
unfolding give given
give_counts {s} {k} v nobody =
    subst
      (λ (p : Option ℕ × Kernel).
        let r = given s p in
        (r.0 ≡ ok)
        × (r.1.count ≡ min (s.count + 1) s.max_count)
        × (r.1.max_count ≡ s.max_count)
        × (r.2 ≡ k))
      (sym (wake_waiter-none s.waiters k nobody))
      (refl, count_up-min s v.bounded v.fits, count_up-max s, refl)

-- What an interrupt's give leaves out is the request for a switch, which `needs_yield` reports.
given_agrees :
    (s : Semaphore) (p : Option ℕ × Kernel)
    → given s p ≡ (
      (given_from_isr s p).0,
      (given_from_isr s p).2,
      if (given_from_isr s p).1
          then request_context_switch (given_from_isr s p).3
          else (given_from_isr s p).3,
    )
unfolding given given_from_isr
given_agrees s (none, k) = refl
given_agrees s (some t, k) = refl

-- `nimble_semaphore_give` does what `nimble_semaphore_give_from_isr` does, followed by a request
-- for a switch if that reports `needs_yield`.
pub give-from_isr :
    (s : Semaphore) (k : Kernel)
    → let r = give_from_isr s k in
      give s k ≡ (r.0, r.2, if r.1 then request_context_switch r.3 else r.3)
unfolding give give_from_isr
give-from_isr s k = given_agrees s (wake_waiter s.waiters k)

-- Neither half of a take, nor a give, breaks the scheduler's structures.
module _ {live : ℕ → Bool} {k : Kernel} (wf : WellFormed live k) (s : Semaphore) where
  pub take-WellFormed :
      (self timeout : ℕ)
      → live self ≡ true
      → is_blocked (k.tcbs self).state ≡ false
      → WellFormed live (take self timeout s k).2
  unfolding take
  take-WellFormed self timeout l nb = elim (Bool-cases (ltb 0 s.count)) [
    | inl some_left ↦ rw some_left wf
    | inr nothing ↦ elim (Bool-cases (timeout == no_wait)) [
      | inl now ↦ rw nothing (rw now wf)
      | inr later ↦ rw nothing (rw later (wait_on-WellFormed wf self l nb s.waiters timeout))
    ]
  ]

  given-WellFormed : (p : Option ℕ × Kernel) → WellFormed live p.1 → WellFormed live (given s p).2
  unfolding given
  given-WellFormed (none, q) w = w
  given-WellFormed (some t, q) w = requested-WellFormed w

  pub give-WellFormed : WellFormed live (give s k).2
  unfolding give
  give-WellFormed = given-WellFormed (wake_waiter s.waiters k) (wake_waiter-WellFormed wf s.waiters)
