-- ===== src/Kernel.antt =====
-- kernel/include/nimble_types.h, nimble_config.h, nimble_task.h and the state of
-- kernel/src/scheduler.c: status codes, task states, the task control block and the kernel's
-- global variables. A task is named by the address of its TCB, a wait list by that of its head.
use nimble_rtos.Common.{ℕ, Bool, true, false, Option, List, ◌-◌, ◌^◌}

-- The `NIMBLE_OK` and `NIMBLE_ERR_*` codes.
pub data Status : Type 0 where
  ok : Status
  err_invalid_arg : Status
  err_no_memory : Status
  err_timeout : Status
  err_not_owner : Status
  err_full : Status
  err_empty : Status

abbrev pub wait_forever : ℕ
wait_forever = 2 ^ 32 - 1

abbrev pub no_wait : ℕ
no_wait = 0

pub data TaskState : Type 0 where
  ready : TaskState
  running : TaskState
  blocked : TaskState
  suspended : TaskState
  deleted : TaskState

abbrev pub is_ready : TaskState → Bool
is_ready ready = true
is_ready _ = false

abbrev pub is_running : TaskState → Bool
is_running running = true
is_running _ = false

abbrev pub is_blocked : TaskState → Bool
is_blocked blocked = true
is_blocked _ = false

abbrev pub is_suspended : TaskState → Bool
is_suspended suspended = true
is_suspended _ = false

abbrev pub max_priorities : ℕ
max_priorities = 32

abbrev pub tick_rate_hz : ℕ
tick_rate_hz = 1000

abbrev pub min_stack_words : ℕ
min_stack_words = 64

abbrev pub max_task_name_len : ℕ
max_task_name_len = 16

-- The links `link` and `event_link` are the places of the task in the lists of `Kernel` below.
pub record Tcb : Type 0 where
  pub sp : ℕ
  pub priority : ℕ
  pub base_priority : ℕ
  pub state : TaskState
  pub stack_base : ℕ
  pub stack_words : ℕ
  pub wake_tick : ℕ
  pub last_wait_result : Status
  pub blocked_on_mutex : Option ℕ
  pub name : List ℕ

-- The globals of scheduler.c, the wait lists of the synchronisation objects (each by the address of
-- its head), and the PendSV pending bit of the interrupt controller.
pub record Kernel : Type 0 where
  pub tcbs : ℕ → Tcb
  pub ready_lists : ℕ → List ℕ
  pub delayed_list : List ℕ
  pub wait_lists : ℕ → List ℕ
  pub ready_bitmap : ℕ
  pub tick_count : ℕ
  pub current_tcb : Option ℕ
  pub next_tcb : Option ℕ
  pub pendsv_pending : Bool
