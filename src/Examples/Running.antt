-- ===== src/Examples/Running.antt =====
-- Runs of the scheduler.
use nimble_rtos.Common.{ℕ, ◌≡◌, refl, arith}
use nimble_rtos.Kernel.{Kernel, blocked}
use nimble_rtos.Scheduler.{tick, add_ready}
use nimble_rtos.Scheduler.Timeouts.{Ticked, tick-Ticked}
use nimble_rtos.Task.{delay_task}
use nimble_rtos.Task.Delays.{SleepsFor, delay_task-SleepsFor}
use nimble_rtos.Common.{none, some}
use nimble_rtos.Port.{Memory}
use nimble_rtos.Scheduler.Invariant.{including}
use nimble_rtos.Task.{scheduler_init, task_create}
use nimble_rtos.System.{creates, ticks, none_yet, then_one}
use nimble_rtos.System.Boot.{no_task, boot-Switched}
use nimble_rtos.Examples.{empty_kernel}
use nimble_rtos.Scheduler.Invariant.{WellFormed}
use nimble_rtos.Scheduler.Switching.{Switched, pendsv-Switched}
use nimble_rtos.Examples.{all, busy, busy-WellFormed, busy-CurrentLive}

abbrev zeros : Memory
zeros a = 0

pendsv-Switched_example : (t : ℕ) × (k' : Kernel) × Switched all busy t k'
unfolding add_ready
pendsv-Switched_example = pendsv-Switched busy-WellFormed busy-CurrentLive 2 refl refl

tick-Ticked_example : Ticked busy (tick busy)
tick-Ticked_example = tick-Ticked busy-WellFormed

delay_task-SleepsFor_example :
    (((delay_task 3 10 busy).tcbs 3).state ≡ blocked) × SleepsFor 10 3 (delay_task 3 10 busy)
unfolding add_ready
delay_task-SleepsFor_example =
    delay_task-SleepsFor busy-WellFormed (omega arith) 3 10 refl refl (omega arith) (omega arith)

-- The idle task has the TCB 1. A task with the TCB 2 is created, then a tick comes.
abbrev booted : Kernel
booted = (scheduler_init 8 1 16 100 zeros empty_kernel).1

abbrev with_two : Kernel
with_two = (task_create 8 (some 2) none (some 20) 0 (some 300) 64 5 zeros booted).2

boot-Switched_example :
    WellFormed (including 2 (including 1 no_task)) (tick with_two)
    × ((t : ℕ) × (k'' : Kernel) × Switched
          (including 2 (including 1 no_task))
          (tick with_two)
          t
          k'')
boot-Switched_example =
    boot-Switched empty_kernel (λ w. refl) 8 1 16 100 zeros
      (then_one
        (then_one none_yet (
          creates (including 1 no_task) booted 8 2 none 20 0 300 64 5 zeros refl (omega arith)
            (omega arith)))
        (ticks (including 2 (including 1 no_task)) with_two))
