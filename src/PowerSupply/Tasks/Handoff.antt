-- ===== src/PowerSupply/Tasks/Handoff.antt =====
-- app/power_supply: a sample on its way from ADC_IRQHandler (isr_bridge.c) to ControlTask
-- (control_task.c).
use nimble_rtos.Common.{
  ℕ, ◌%◌, ◌≤◌, ◌≡◌, refl, Bool, true, false, some, List, [], ◌∷◌, arith, leb, ltb, length,
  Bool-cases, inl, inr, sym, ap, ◌∙◌,
}
use nimble_rtos.Common.Words.{add32}
use nimble_rtos.Kernel.{Kernel}
use nimble_rtos.Semaphore.{Semaphore}
use nimble_rtos.Queue.{Queue, copy_in, copy_out, send_from_isr, receive}
use nimble_rtos.Queue.Fifo.{QueueValid, contents, items}
use nimble_rtos.Queue.Refine.{copy_in-contents, copy_in-QueueValid, copy_out-contents}
use nimble_rtos.PowerSupply.{adc_irq, sample_bytes}
use nimble_rtos.PowerSupply.Tasks.{voltage_raw, current_raw}

-- The two bytes of each member.
abbrev Carries : ℕ → List ℕ → Type 0
Carries raw sample = (voltage_raw sample ≡ raw) × (current_raw sample ≡ raw)

sample_bytes-Carries : (adc_dr : ℕ) → Carries (adc_dr % 4096) (sample_bytes adc_dr)
unfolding sample_bytes voltage_raw current_raw
sample_bytes-Carries adc_dr = (omega arith, omega arith)

enough : (adc_dr : ℕ) {n : ℕ} → n ≡ 4 → n ≤ length (sample_bytes adc_dr)
unfolding sample_bytes
enough adc_dr e = omega (arith, e)

head_injective :
    {x y : List ℕ} {xs ys : List (List ℕ)} → ◌≡◌ {A = List (List ℕ)} (x ∷ xs) (y ∷ ys) → x ≡ y
head_injective {x} e = ap (λ (zs : List (List ℕ)). head_or x zs) e
  where
    head_or : List ℕ → List (List ℕ) → List ℕ
    head_or d [] = d
    head_or d (z ∷ zs) = z

module _ {q : Queue} (v : QueueValid q) (size : q.item_size ≡ 4) (empty : q.count ≡ 0)
    (adc_dr : ℕ) where
  abbrev filled : Queue
  filled = copy_in (sample_bytes adc_dr) q

  irq_queue :
      (exceeds : ℕ → Bool) (sem : Semaphore) (k : Kernel)
      → (adc_irq exceeds adc_dr q sem k).0 ≡ filled
  unfolding adc_irq send_from_isr
  irq_queue exceeds sem k =
      let room : leb q.capacity q.count ≡ false = ground (arith, v.not_empty) in
      elim (Bool-cases (exceeds (adc_dr % 4096))) [
        | inl due ↦ rw due (rw room refl)
        | inr fine ↦ rw fine (rw room refl)
      ]

  filled_contents : contents filled ≡ sample_bytes adc_dr ∷ []
  unfolding sample_bytes items
  filled_contents =
      copy_in-contents v (sample_bytes adc_dr) (enough adc_dr size) (omega (arith, v.not_empty))
      ∙ rw empty (rw size refl)

  filled_count : filled.count ≡ 1
  unfolding copy_in add32
  filled_count = rw empty refl

  taken_out : (copy_out filled).0 ≡ sample_bytes adc_dr
  taken_out =
      let valid =
        copy_in-QueueValid v (sample_bytes adc_dr) (enough adc_dr size)
          (omega (arith, v.not_empty)) in
      let split = sym (copy_out-contents valid (omega (arith, filled_count))) ∙ filled_contents in
      head_injective split

  -- With a valid and empty sample queue of items of 4 bytes, a task that receives after
  -- ADC_IRQHandler gets a sample whose two members are the low 12 bits of the data register.
  pub adc_irq-receive :
      (exceeds : ℕ → Bool) (sem : Semaphore) (k k' : Kernel) (self timeout : ℕ)
      → (sample : List ℕ) × ((receive self timeout (adc_irq exceeds adc_dr q sem k).0 k').1
          ≡ some sample)
        × (voltage_raw sample ≡ adc_dr % 4096)
        × (current_raw sample ≡ adc_dr % 4096)
  unfolding receive
  adc_irq-receive exceeds sem k k' self timeout =
      let there : ltb 0 filled.count ≡ true = ground (arith, filled_count) in
      let carried = sample_bytes-Carries adc_dr in
      (
        sample_bytes adc_dr,
        rw (irq_queue exceeds sem k) (rw there (rw taken_out refl)),
        carried.0,
        carried.1,
      )
