-- ===== src/Examples/Hardware.antt =====
-- Runs of the port: bring-up, critical sections and context switches.
use nimble_rtos.Common.{◌/◌, ◌%◌, ◌^◌, ◌*◌, ◌≤◌, ◌<◌, ◌≡◌, ◌↔◌, refl, none, some, arith}
use nimble_rtos.Kernel.{Kernel, Status, tick_rate_hz}
use nimble_rtos.Scheduler.{add_ready}
use nimble_rtos.Port.{Memory}
use nimble_rtos.Port.Critical.{
  Code, done, access, section, run_code, accesses, AsDeclared, run_code-AsDeclared,
}
use nimble_rtos.Port.Context.{Registers, Machine, pendsv_handler, svc_handler}
use nimble_rtos.Port.Context.Swapping.{Swapped, pendsv_handler-Swapped}
use nimble_rtos.Port.Context.Starting.{Started, svc_handler-Started}
use nimble_rtos.Board.{
  Board, systick_init, system_init, pendsv_priority, systick_priority, nvic_prio_pendsv_systick,
  hsi_clock_hz,
}
use nimble_rtos.Board.Clock.{tick_period, systick_init-period}
use nimble_rtos.Board.Priorities.{system_init-priorities}
use nimble_rtos.Task.{task_create}
use nimble_rtos.Task.Stack.{FreshStack}
use nimble_rtos.Task.Lifecycle.{task_create-FreshStack}
use nimble_rtos.Examples.{busy, busy-WellFormed, busy-CurrentLive}

abbrev board : Board
board = record { scb_shpr3 = 0x12345678; stk_ctrl = 0; stk_load = 0; stk_val = 7 }

systick_init-period_example :
    let r = systick_init 84000000 board in
    (tick_period r % 2 ^ 32 ≡ 84000000 / tick_rate_hz)
    × ((r.stk_load < 2 ^ 24) ↔ (tick_rate_hz ≤ 84000000))
    × (tick_period (system_init board) * tick_rate_hz ≡ hsi_clock_hz)
systick_init-period_example = systick_init-period 84000000 board (omega arith)

system_init-priorities_example :
    let r = system_init board in
    (pendsv_priority r ≡ nvic_prio_pendsv_systick)
    × (systick_priority r ≡ nvic_prio_pendsv_systick)
    × (r.scb_shpr3 % 2 ^ 16 ≡ 0x5678)
    × (r.scb_shpr3 < 2 ^ 32)
system_init-priorities_example = system_init-priorities board (omega arith)

-- A section inside a section, and an access after both.
abbrev nested : Code
nested = section (section (access done) (access done)) (access done)

run_code-AsDeclared_example : (run_code nested 0 ≡ 0) × AsDeclared 0xf0 (accesses nested 0 0)
run_code-AsDeclared_example = run_code-AsDeclared 0xf0 nested

abbrev registers : Registers
registers = record { r4 = 4; r5 = 5; r6 = 6; r7 = 7; r8 = 8; r9 = 9; r10 = 10; r11 = 11 }

abbrev machine : Machine
machine = record { registers = registers; psp = 100; basepri = 0; memory = λ a. a; kernel = busy }

pendsv_handler-Swapped_example :
    (s' : Machine) × (pendsv_handler machine ≡ some s') × Swapped machine 3 s'
unfolding add_ready
pendsv_handler-Swapped_example =
    pendsv_handler-Swapped busy-WellFormed busy-CurrentLive 2 refl refl 3 refl (omega arith)

-- Task 4 was created, and is the one to start with.
abbrev created : Status × Memory × Kernel
created = task_create 8 (some 4) none (some 16) 0 (some 100) 64 9 (λ a. 0) busy

created-FreshStack : FreshStack 8 4 16 0 100 64 (λ a. 0) created
created-FreshStack =
    (task_create-FreshStack busy-WellFormed 8 4 none 16 0 100 64 9 (λ a. 0) refl (omega arith)
      (omega arith)).1

abbrev starting : Machine
starting = record machine {
  basepri = 80;
  memory = created.1;
  kernel = record created.2 { current_tcb = some 4 };
}

svc_handler-Started_example :
    (s' : Machine) × (svc_handler starting ≡ some s') × Started 8 16 0 164 s'
svc_handler-Started_example =
    svc_handler-Started created-FreshStack (omega arith) starting refl refl (λ x h g. refl)
