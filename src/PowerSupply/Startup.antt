-- ===== src/PowerSupply/Startup.antt =====
-- app/power_supply/main.c and `ps_shared_init` of power_supply.c: the objects, the tasks and their
-- priorities, up to the start of the scheduler. Addresses are arguments.
pub mod Created
pub mod First
use nimble_rtos.Common.{ℕ, ◌/◌, Option, none, some, List, [], ◌∷◌, replicate}
use nimble_rtos.Kernel.{Kernel}
use nimble_rtos.Scheduler.{scheduler_start}
use nimble_rtos.Port.{Memory}
use nimble_rtos.Board.{Board, system_init}
use nimble_rtos.Task.{task_create, scheduler_init}
use nimble_rtos.Mutex.{Mutex, mutex_init}
use nimble_rtos.Semaphore.{Semaphore, semaphore_init}
use nimble_rtos.Queue.{Queue, queue_init}
use nimble_rtos.Timer.{Service, timer_service_start}
use nimble_rtos.PowerSupply.{PsStatus, idle}

-- `ps_task_priority_t`
abbrev pub ps_prio_logger : ℕ
ps_prio_logger = 1

abbrev pub ps_prio_comms : ℕ
ps_prio_comms = 2

abbrev pub ps_prio_control : ℕ
ps_prio_control = 3

abbrev pub ps_prio_protection : ℕ
ps_prio_protection = 4

abbrev pub ps_prio_timer_svc : ℕ
ps_prio_timer_svc = 3

abbrev pub adc_queue_depth : ℕ
adc_queue_depth = 8

-- The globals of power_supply.c.
pub record Objects (F : Type 0) : Type 0 where
  pub g_status_mutex : Mutex
  pub g_fault_semaphore : Semaphore
  pub g_adc_sample_queue : Queue
  pub g_status : PsStatus F

-- The addresses of the heads of the wait lists.
pub record WaitLists : Type 0 where
  pub of_mutex : ℕ
  pub of_fault : ℕ
  pub of_receivers : ℕ
  pub of_senders : ℕ
  pub of_timers : ℕ

-- `zero` is the `float` of bytes 0. A sample has four bytes.
unfoldable pub ps_shared_init : {F : Type 0} → WaitLists → F → Kernel → Objects F × Kernel
unfolding mutex_init semaphore_init queue_init
ps_shared_init w zero k =
    let (mutex, k1) = mutex_init w.of_mutex k in
    let (sem, k2) = semaphore_init 0 1 w.of_fault k1 in
    let (queue, k3) =
      queue_init (replicate 32 0) 4 adc_queue_depth w.of_receivers w.of_senders k2 in
    (
      record {
        g_status_mutex = mutex;
        g_fault_semaphore = sem;
        g_adc_sample_queue = queue;
        g_status = record { state = idle; voltage_mv = zero; current_ma = zero; fault_count = 0 };
      },
      k3,
    )

-- A task as `main` creates it: TCB, name, function and stack.
pub record TaskPlace : Type 0 where
  pub tcb : ℕ
  pub name : List ℕ
  pub fn : ℕ
  pub stack : ℕ

pub record Layout : Type 0 where
  pub exit_trap : ℕ
  pub waits : WaitLists
  pub idle_task : TaskPlace
  pub protection : TaskPlace
  pub control : TaskPlace
  pub comms : TaskPlace
  pub logger : TaskPlace
  pub timer_svc : TaskPlace

-- `STACK_WORDS`
abbrev pub words_of : ℕ → ℕ
words_of bytes = bytes / 4

-- `(void)nimble_task_create(...)`
unfoldable pub create : ℕ → TaskPlace → ℕ → ℕ → Memory × Kernel → Memory × Kernel
create exit_trap p bytes priority (m, k) =
    let r =
      task_create exit_trap (some p.tcb) (some p.name) (some p.fn) 0 (some p.stack) (words_of bytes)
        priority m k in
    (r.1, r.2)

-- The four tasks of the application.
unfoldable pub create_tasks : Layout → Memory × Kernel → Memory × Kernel
unfolding create
create_tasks l s = create l.exit_trap l.logger 768 ps_prio_logger (
    create l.exit_trap l.comms 1024 ps_prio_comms (
      create l.exit_trap l.control 1024 ps_prio_control
        (create l.exit_trap l.protection 512 ps_prio_protection s)))

unfoldable pub start_timers : Layout → Service → Memory × Kernel → Service × Memory × Kernel
unfolding timer_service_start
start_timers l s (m, k) =
    let r =
      timer_service_start l.exit_trap l.waits.of_timers l.timer_svc.tcb l.timer_svc.fn
        l.timer_svc.name ps_prio_timer_svc (some l.timer_svc.stack) (words_of 512) s m k in
    (r.1, r.2, r.3)

pub record Booted (F : Type 0) : Type 0 where
  pub board : Board
  pub objects : Objects F
  pub service : Service
  pub memory : Memory
  pub first : Option (ℕ × Kernel)

unfoldable pub main : {F : Type 0} → Layout → F → Board → Service → Memory → Kernel → Booted F
unfolding scheduler_init ps_shared_init create_tasks start_timers scheduler_start
main l zero b s m k =
    let i = scheduler_init l.exit_trap l.idle_task.tcb l.idle_task.fn l.idle_task.stack m k in
    let o = ps_shared_init l.waits zero i.1 in
    let r = start_timers l s (create_tasks l (i.0, o.1)) in
    record {
      board = system_init b;
      objects = o.0;
      service = r.0;
      memory = r.1;
      first = scheduler_start r.2;
    }
