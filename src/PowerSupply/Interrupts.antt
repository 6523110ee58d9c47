-- ===== src/PowerSupply/Interrupts.antt =====
-- app/power_supply/isr_bridge.c: the interrupt handlers against the steps of the kernel.
use nimble_rtos.Common.{ℕ, ◌%◌, Bool, true, false, ◌||◌, [], ◌∷◌, Bool-cases, inl, inr}
use nimble_rtos.Kernel.{Kernel}
use nimble_rtos.Semaphore.{Semaphore, give_from_isr}
use nimble_rtos.Queue.{Queue, send_from_isr}
use nimble_rtos.Task.{task_yield}
use nimble_rtos.System.{Steps, sends_from_isr, gives_from_isr, yields, none_yet, then_one}
use nimble_rtos.PowerSupply.{adc_irq, usart1_irq, sample_bytes, request_if}

module _ {idle : ℕ} {live : ℕ → Bool} {k : Kernel} where
  requested :
      {k' : Kernel} (b : Bool)
      → Steps idle live k live k'
      → Steps idle live k live (request_if b k')
  unfolding task_yield
  requested {k'} true s = then_one s (yields live k')
  requested false s = s

  -- What ADC_IRQHandler does to the kernel, whatever the sample, is a sequence of steps of the
  -- kernel.
  pub adc_irq-Steps :
      (exceeds : ℕ → Bool) (adc_dr : ℕ) (q : Queue) (sem : Semaphore)
      → Steps idle live k live (adc_irq exceeds adc_dr q sem k).2
  unfolding adc_irq
  adc_irq-Steps exceeds adc_dr q sem =
      let sent = send_from_isr (sample_bytes adc_dr) q k in
      let given = give_from_isr sem sent.3 in
      let first : Steps idle live k live sent.3 =
        then_one none_yet (sends_from_isr live k (sample_bytes adc_dr) q) in
      elim (Bool-cases (exceeds (adc_dr % 4096))) [
        | inl due ↦
            rw due (requested (sent.1 || given.1) (then_one first (gives_from_isr live sent.3 sem)))
        | inr fine ↦ rw fine (requested sent.1 first)
      ]

  pub usart1_irq-Steps :
      (rxne : Bool) (usart_dr : ℕ) (q : Queue)
      → Steps idle live k live (usart1_irq rxne usart_dr q k).1
  unfolding usart1_irq
  usart1_irq-Steps true usart_dr q =
      requested (send_from_isr (usart_dr % 256 ∷ []) q k).1
        (then_one none_yet (sends_from_isr live k (usart_dr % 256 ∷ []) q))
  usart1_irq-Steps false usart_dr q = none_yet
