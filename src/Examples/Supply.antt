-- ===== src/Examples/Supply.antt =====
-- Runs of the power supply application.
use nimble_rtos.Common.{
  ℕ, ◌*◌, List, some, arith, ◌≡◌, refl, true, false, [], ◌∷◌, ltb, if◌then◌else◌, replicate,
}
use nimble_rtos.Semaphore.{Semaphore}
use nimble_rtos.Queue.{Queue}
use nimble_rtos.PowerSupply.{
  PsState, soft_start, fault, is_fault, PsStatus, LineBuffer, control_round, comms_byte,
  handle_command, status_line, adc_irq,
}
use nimble_rtos.PowerSupply.Faults.{writes_state, control_round-fault}
use nimble_rtos.PowerSupply.Line.{HoldsLine, ByteTaken, comms_byte-ByteTaken}
use nimble_rtos.Common.Tids.{mem, distinct}
use nimble_rtos.Kernel.{Kernel, wait_forever}
use nimble_rtos.Scheduler.{add_ready, prepare_block}
use nimble_rtos.Waiters.{wait_on, insert_waiter_priority_sorted}
use nimble_rtos.Queue.{receive}
use nimble_rtos.Queue.Fifo.{QueueValid}
use nimble_rtos.Timer.{Service}
use nimble_rtos.System.{takes}
use nimble_rtos.System.Reach.{Sound, step-Sound}
use nimble_rtos.PowerSupply.Reaction.{Reacts, adc_irq-Reacts}
use nimble_rtos.PowerSupply.Tasks.{voltage_raw, current_raw}
use nimble_rtos.PowerSupply.Tasks.Handoff.{adc_irq-receive}
use nimble_rtos.PowerSupply.Startup.{Layout, TaskPlace, main}
use nimble_rtos.PowerSupply.Startup.First.{FirstRun, main-FirstRun}
use nimble_rtos.Examples.{all, busy, busy-WellFormed, busy-CurrentLive, empty_kernel}
use nimble_rtos.Examples.Timers.{timer}

abbrev faulted : PsStatus ℕ
faulted = record { state = fault; voltage_mv = 14000; current_ma = 0; fault_count = 1 }

control_round-fault_example :
    let r = control_round 12000 10 soft_start 49 faulted in
    (is_fault r.2.state ≡ (if writes_state soft_start 49 then false else true))
    × (is_fault r.0 ≡ (if writes_state soft_start 49 then false else true))
    × (r.2.fault_count ≡ 1)
control_round-fault_example = control_round-fault 12000 10 soft_start 49 faulted refl

abbrev fresh_line : LineBuffer
fresh_line = record { line_buf = replicate 64 0; line_len = 0 }

fresh-HoldsLine : HoldsLine [] fresh_line
fresh-HoldsLine = record { sized = refl; filled = refl; held = refl }

comms_byte-ByteTaken_example : ByteTaken 115 [] (comms_byte 115 fresh_line)
comms_byte-ByteTaken_example = comms_byte-ByteTaken fresh-HoldsLine 115

status_command : handle_command (115 ∷ 116 ∷ 97 ∷ 116 ∷ 117 ∷ 115 ∷ 0 ∷ 7 ∷ []) ≡ status_line
unfolding handle_command nimble_rtos.PowerSupply.same_string nimble_rtos.PowerSupply.c_string
status_command = refl

abbrev samples : Queue
samples = record {
  buffer = replicate 32 0;
  item_size = 4;
  capacity = 8;
  count = 0;
  head = 0;
  tail = 0;
  receivers_waiting = 51;
  senders_waiting = 52;
}

abbrev fault_semaphore : Semaphore
fault_semaphore = record { count = 0; max_count = 1; waiters = 53 }

samples-QueueValid : QueueValid samples
samples-QueueValid = record {
  not_empty = omega arith;
  few = omega arith;
  within = omega arith;
  head_in = omega arith;
  tail_at = refl;
  sized = refl;
  addressable = omega arith;
}

adc_irq-receive_example :
    (sample : List ℕ) × ((receive 3 5
        (adc_irq (λ raw. ltb 3200 raw) 4097 samples fault_semaphore busy).0
        busy).1
      ≡ some sample)
    × (voltage_raw sample ≡ 1)
    × (current_raw sample ≡ 1)
adc_irq-receive_example =
    adc_irq-receive samples-QueueValid refl refl 4097 (λ raw. ltb 3200 raw) fault_semaphore busy
      busy 3 5

busy-Sound : Sound 1 all busy
unfolding add_ready
busy-Sound = record {
  well_formed = busy-WellFormed;
  current_live = busy-CurrentLive;
  bases = λ t l. ground arith;
  idle_live = refl;
  idle_runs = refl;
}

-- Task 3 waits for a fault.
abbrev watching : Kernel
watching = (nimble_rtos.Semaphore.take 3 wait_forever fault_semaphore busy).2

watching-Sound : Sound 1 all watching
unfolding add_ready
watching-Sound =
    step-Sound busy-Sound
      (takes all busy 3 wait_forever fault_semaphore (refl, refl) (λ e. ground arith))

adc_irq-Reacts_example :
    (k' : Kernel) × Reacts 3 faulted
      (adc_irq (λ raw. ltb 3200 raw) 4000 samples fault_semaphore watching).2
      k'
unfolding add_ready nimble_rtos.Semaphore.take wait_on prepare_block insert_waiter_priority_sorted
adc_irq-Reacts_example =
    adc_irq-Reacts watching-Sound (λ raw. ltb 3200 raw) 4000 samples fault_semaphore 3 refl refl
      refl faulted (λ t l other. ground arith)

abbrev place : ℕ → TaskPlace
place n = record { tcb = n; name = []; fn = 16 * n; stack = 1000 * n }

abbrev layout : Layout
layout = record {
  exit_trap = 8;
  waits = record {
    of_mutex = 61;
    of_fault = 62;
    of_receivers = 63;
    of_senders = 64;
    of_timers = 65;
  };
  idle_task = place 1;
  protection = place 2;
  control = place 3;
  comms = place 4;
  logger = place 5;
  timer_svc = place 6;
}

abbrev service : Service
service = record {
  timers = λ t. timer 0 0 false false;
  active_timers = [];
  timer_wake_sem = fault_semaphore;
}

main-FirstRun_example :
    FirstRun layout
      (main {F = ℕ} layout 0
        (record { scb_shpr3 = 0; stk_ctrl = 0; stk_load = 0; stk_val = 0 })
        service
        (λ a. 0)
        empty_kernel).first
unfolding distinct mem
main-FirstRun_example =
    main-FirstRun {F = ℕ} layout 0
      (record { scb_shpr3 = 0; stk_ctrl = 0; stk_load = 0; stk_val = 0 }) service (λ a. 0)
      empty_kernel (λ w. refl) refl
