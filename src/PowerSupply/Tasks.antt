-- ===== src/PowerSupply/Tasks.antt =====
-- app/power_supply: the rounds of the tasks' loops (control_task.c, comms_task.c, logger_task.c), the
-- receive queue of uart_bridge.c and the names of the states. Scaling by `float` and `snprintf` are
-- arguments; `ps_uart_puts` does nothing.
pub mod Handoff
use nimble_rtos.Common.{
  ℕ, ◌+◌, ◌*◌, Bool, true, false, Option, none, some, List, [], ◌∷◌, if◌then◌else◌, replicate,
}
use nimble_rtos.Kernel.{Kernel, Status, tick_rate_hz}
use nimble_rtos.Task.{task_delay}
use nimble_rtos.Queue.{Queue, queue_init, byte_at}
use nimble_rtos.PowerSupply.{
  PsState, idle, soft_start, running_state, fault, PsStatus, control_round, LineBuffer, comms_byte,
  handle_command, Reply, status_line, unknown_command, no_reply, is_ok,
}

-- The members of a received `ps_adc_sample_t`.
unfoldable pub voltage_raw : List ℕ → ℕ
voltage_raw sample = byte_at sample 0 + 256 * byte_at sample 1

unfoldable pub current_raw : List ℕ → ℕ
current_raw sample = byte_at sample 2 + 256 * byte_at sample 3

-- `ps_state_name`, as ASCII codes.
abbrev pub ps_state_name : PsState → List ℕ
ps_state_name idle = 73 ∷ 68 ∷ 76 ∷ 69 ∷ []
ps_state_name soft_start = 83 ∷ 79 ∷ 70 ∷ 84 ∷ 95 ∷ 83 ∷ 84 ∷ 65 ∷ 82 ∷ 84 ∷ []
ps_state_name running_state = 82 ∷ 85 ∷ 78 ∷ 78 ∷ 73 ∷ 78 ∷ 71 ∷ []
ps_state_name fault = 70 ∷ 65 ∷ 85 ∷ 76 ∷ 84 ∷ []

abbrev pub uart_rx_queue_depth : ℕ
uart_rx_queue_depth = 64

unfoldable pub uart_bridge_init : ℕ → ℕ → Kernel → Queue × Kernel
unfolding queue_init
uart_bridge_init receivers senders k =
    queue_init (replicate uart_rx_queue_depth 0) 1 uart_rx_queue_depth receivers senders k

-- One round of CommsTask: the result of its receive, and the byte.
unfoldable pub comms_round : Status → ℕ → LineBuffer → Option (List ℕ) × LineBuffer
unfolding comms_byte
comms_round result byte b = if is_ok result then comms_byte byte b else (none, b)

abbrev pub logger_period_ticks : ℕ
logger_period_ticks = tick_rate_hz

-- What `snprintf` is given of a status.
abbrev pub Format : Type 0 → Type 0
Format F = List ℕ → F → F → ℕ → List ℕ

module _ {F : Type 0} where
  -- One round of ControlTask: the result of its receive, and the sample.
  unfoldable pub control_task_round :
      (ℕ → F) → (ℕ → F) → Status → List ℕ → PsState → ℕ → PsStatus F → PsState × ℕ × PsStatus F
  unfolding control_round voltage_raw current_raw
  control_task_round millivolts milliamps result sample s step g =
      if is_ok result
      then control_round (millivolts (voltage_raw sample)) (milliamps (current_raw sample)) s step g
      else (s, step, g)

  abbrev pub status_text : Format F → PsStatus F → List ℕ
  status_text format g = format (ps_state_name g.state) g.voltage_mv g.current_ma g.fault_count

  -- The text that a command is answered with; `unknown` is "unknown command\r\n".
  unfoldable pub answer_to : Format F → List ℕ → List ℕ → PsStatus F → List ℕ
  unfolding handle_command
  answer_to format unknown line g = elim (handle_command line) [
    | status_line ↦ status_text format g
    | unknown_command ↦ unknown
    | no_reply ↦ []
  ]

  -- One round of LoggerTask on a snapshot of the status: its text, and the kernel that it sleeps in.
  unfoldable pub logger_round : Format F → PsStatus F → Kernel → List ℕ × Option Kernel
  unfolding task_delay
  logger_round format g k = (status_text format g, task_delay logger_period_ticks k)
