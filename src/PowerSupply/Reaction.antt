-- ===== src/PowerSupply/Reaction.antt =====
-- app/power_supply/isr_bridge.c and protection_task.c: from a sample beyond the limits to the noted
-- fault.
use nimble_rtos.Common.{
  ℕ, ◌%◌, ◌<◌, ◌≡◌, refl, Bool, true, false, some, List, [], ◌∷◌, ◌==◌, arith, Bool-cases,
  Option-cases, inl, inr, head?, subst, sym, ◌∙◌,
}
use nimble_rtos.Common.Tids.{remove, mem_of_head}
use nimble_rtos.Kernel.{Kernel, Status, ok}
use nimble_rtos.Scheduler.{wake, wake_waiter, pendsv, request_context_switch}
use nimble_rtos.Scheduler.Waking.{
  wake_waiter-none, wake_waiter-some, wake_wait_lists, wake_priority,
}
use nimble_rtos.Scheduler.Switching.{is_runnable, Switched, pendsv-Switched}
use nimble_rtos.Waiters.{priority_of}
use nimble_rtos.Semaphore.{Semaphore, give_from_isr, given_from_isr, take_resume}
use nimble_rtos.Queue.{Queue, send_from_isr}
use nimble_rtos.System.{Runs}
use nimble_rtos.System.Calls.{send_from_isr-holds}
use nimble_rtos.System.Reach.{Sound, Steps-Sound}
use nimble_rtos.PowerSupply.{
  PsStatus, adc_irq, sample_bytes, protection_round, ps_status_note_fault,
}
use nimble_rtos.PowerSupply.Interrupts.{adc_irq-Steps}

head_remove :
    (u p : ℕ) (xs : List ℕ) → head? xs ≡ some p → (u == p) ≡ false → head? (remove u xs) ≡ some p
unfolding remove
head_remove u p [] h other = absurd cc
head_remove u p (x ∷ xs) h other = ground arith

-- From `k` to `k'` the task still heads the list, and no priority changes.
record Heads (w p : ℕ) (k k' : Kernel) : Type 0 where
  pub first : head? (k'.wait_lists w) ≡ some p
  pub same_priority : (s : ℕ) → priority_of k' s ≡ priority_of k s

module _ {idle : ℕ} {live : ℕ → Bool} {k : Kernel} (s : Sound idle live k) (p w : ℕ)
    (first : head? (k.wait_lists w) ≡ some p) where
  woken_other : (v : ℕ) → (v == w) ≡ false → Heads w p k (wake_waiter v k).1
  woken_other v other = elim (Option-cases (head? (k.wait_lists v))) [
    | inl nobody ↦
        rw (wake_waiter-none v k nobody) (record { first = first; same_priority = λ s. refl })
    | inr (u, e) ↦
        let apart : (u == p) ≡ false = ground (
          arith,
          s.well_formed.one_wait v w p,
          mem_of_head u (k.wait_lists v) e,
          mem_of_head p (k.wait_lists w) first,
        ) in
        rw (wake_waiter-some v u k e) (record {
          first = rw (wake_wait_lists u ok w k) (head_remove u p (k.wait_lists w) first apart);
          same_priority = λ s. sym (wake_priority u ok s k);
        })
  ]

  sent-Heads :
      (item : List ℕ) (q : Queue)
      → (q.receivers_waiting == w) ≡ false
      → Heads w p k (send_from_isr item q k).3
  sent-Heads item q other =
      send_from_isr-holds (Heads w p k)
        (λ j h. record { first = h.first; same_priority = h.same_priority }) k item q
        (record { first = first; same_priority = λ s. refl })
        (woken_other q.receivers_waiting other)

give_from_isr-wakes :
    (sem : Semaphore) (p : ℕ) (k : Kernel)
    → head? (k.wait_lists sem.waiters) ≡ some p
    → give_from_isr sem k ≡ (ok, true, sem, wake p ok k)
unfolding give_from_isr given_from_isr
give_from_isr-wakes sem p k e = rw (wake_waiter-some sem.waiters p k e) refl

-- What the interrupt leads to: `p` is the task that waits for the semaphore, `g` the status when it
-- gets to it.
pub record Reacts {F : Type 0} (p : ℕ) (g : PsStatus F) (k k' : Kernel) : Type 0 where
  pub switch_due : k.pendsv_pending ≡ true
  pub switched : pendsv k ≡ some k'
  pub runs : Runs p k'
  pub noted : protection_round (take_resume p k').0 g ≡ ps_status_note_fault g

-- The kernel after the interrupt.
abbrev tripped : ℕ → Queue → ℕ → Kernel → Kernel
tripped adc_dr q p k =
    request_context_switch (wake p ok (send_from_isr (sample_bytes adc_dr) q k).3)

module _ {idle : ℕ} {live : ℕ → Bool} {k : Kernel} (s : Sound idle live k) (exceeds : ℕ → Bool)
    (adc_dr : ℕ) (q : Queue) (sem : Semaphore) (p : ℕ)
    (first : head? (k.wait_lists sem.waiters) ≡ some p)
    (other : (q.receivers_waiting == sem.waiters) ≡ false)
    (beyond : exceeds (adc_dr % 4096) ≡ true) where
  abbrev sent : Status × Bool × Queue × Kernel
  sent = send_from_isr (sample_bytes adc_dr) q k

  sent_first : Heads sem.waiters p k sent.3
  sent_first = sent-Heads s p sem.waiters first (sample_bytes adc_dr) q other

  adc_irq-tripped : (adc_irq exceeds adc_dr q sem k).2 ≡ tripped adc_dr q p k
  unfolding adc_irq
  adc_irq-tripped =
      let given = give_from_isr-wakes sem p sent.3 sent_first.first in
      rw beyond (
        rw given (elim (Bool-cases sent.1) [ inl early ↦ rw early refl | inr late ↦ rw late refl ]))

  tripped-Sound : Sound idle live (tripped adc_dr q p k)
  tripped-Sound =
      subst (λ (j : Kernel). Sound idle live j) adc_irq-tripped
        (Steps-Sound s (adc_irq-Steps exceeds adc_dr q sem))

  tripped_ready : is_runnable ((tripped adc_dr q p k).tcbs p).state ≡ true
  unfolding wake
  tripped_ready = ground arith

  tripped_result : ((tripped adc_dr q p k).tcbs p).last_wait_result ≡ ok
  unfolding wake
  tripped_result = ground arith

  tripped_priority : (t : ℕ) → priority_of (tripped adc_dr q p k) t ≡ priority_of k t
  tripped_priority t = sym (wake_priority p ok t sent.3) ∙ sent_first.same_priority t

  -- The switch goes to `p`, and its take returns OK.
  reacts :
      {F : Type 0} (g : PsStatus F) (t : ℕ) (k' : Kernel)
      → Switched live (tripped adc_dr q p k) t k'
      → t ≡ p
      → Reacts p g (tripped adc_dr q p k) k'
  unfolding take_resume protection_round
  reacts g t k' w same = record {
    switch_due = refl;
    switched = w.switched;
    runs = subst (λ (x : ℕ). Runs x k') same (w.current, w.now_running);
    noted = let told = w.same_result p ∙ tripped_result in rw told refl;
  }

  -- In a sound kernel in which one task heads the wait list of the fault semaphore, which is not
  -- the list of the receivers, and outranks every other task in use: after ADC_IRQHandler with a
  -- sample beyond the limits a switch is due, PendSV switches to that task, and its take returns
  -- OK, so that its round notes the fault.
  pub adc_irq-Reacts :
      {F : Type 0} (g : PsStatus F)
      → ((t : ℕ) → live t ≡ true → (t == p) ≡ false → priority_of k t < priority_of k p)
      → (k' : Kernel) × Reacts p g (adc_irq exceeds adc_dr q sem k).2 k'
  adc_irq-Reacts g urgent =
      let in_use : live p ≡ true = ground (
        arith,
        s.well_formed.in_wait sem.waiters p,
        mem_of_head p (k.wait_lists sem.waiters) first,
      ) in
      let z = tripped-Sound in
      let (t, k', w) = pendsv-Switched z.well_formed z.current_live p in_use tripped_ready in
      let same : t ≡ p = ground (
        arith,
        urgent t,
        w.in_use,
        w.highest p in_use tripped_ready,
        tripped_priority t,
        tripped_priority p,
      ) in
      (k', rw adc_irq-tripped (reacts g t k' w same))
