-- ===== src/PowerSupply.antt =====
-- app/power_supply: the shared status (power_supply.c), the state machine of ControlTask
-- (control_task.c), the line buffer of CommsTask (comms_task.c) and the interrupt handlers
-- (isr_bridge.c). `F` is the type `float`; what the code computes with it is an argument.
pub mod Faults
pub mod Line
pub mod Interrupts
pub mod Sharing
pub mod Startup
pub mod Reaction
pub mod Tasks
use nimble_rtos.Common.{
  ℕ, zero, suc, ◌+◌, ◌-◌, ◌/◌, ◌%◌, Bool, true, false, not, ◌||◌, Option, none, some, List, [], ◌∷◌,
  ◌==◌, ltb, leb, if◌then◌else◌, set, get_elem?,
}
use nimble_rtos.Common.Words.{add32}
use nimble_rtos.Kernel.{Kernel, Status, ok}
use nimble_rtos.Scheduler.{request_context_switch}
use nimble_rtos.Semaphore.{Semaphore, give_from_isr}
use nimble_rtos.Queue.{Queue, send_from_isr}

pub data PsState : Type 0 where
  idle : PsState
  soft_start : PsState
  running_state : PsState
  fault : PsState

abbrev pub is_fault : PsState → Bool
is_fault fault = true
is_fault _ = false

pub record PsStatus (F : Type 0) : Type 0 where
  pub state : PsState
  pub voltage_mv : F
  pub current_ma : F
  pub fault_count : ℕ

abbrev pub soft_start_ramp_steps : ℕ
soft_start_ramp_steps = 50

module _ {F : Type 0} where
  -- `g_status` under its mutex: each of these runs between the lock and the unlock.
  abbrev pub ps_status_set_measurement : F → F → PsStatus F → PsStatus F
  ps_status_set_measurement v i g = record g { voltage_mv = v; current_ma = i }

  abbrev pub ps_status_set_state : PsState → PsStatus F → PsStatus F
  ps_status_set_state s g = record g { state = s }

  abbrev pub ps_status_note_fault : PsStatus F → PsStatus F
  ps_status_note_fault g = record g { state = fault; fault_count = add32 g.fault_count 1 }

  -- `local_state`, `soft_start_step` and `g_status`, through the `switch` of `run_state_machine`.
  unfoldable pub advance : PsState → ℕ → PsStatus F → PsState × ℕ × PsStatus F
  advance idle step g = (soft_start, 0, ps_status_set_state soft_start g)
  advance soft_start step g =
      if leb soft_start_ramp_steps (add32 step 1)
      then (running_state, add32 step 1, ps_status_set_state running_state g)
      else (soft_start, add32 step 1, g)
  advance running_state step g = (running_state, step, g)
  advance fault step g = (fault, step, g)

  -- The end of `run_state_machine`: the local state follows a fault.
  unfoldable pub resync : PsState → PsStatus F → PsState
  resync s g = if is_fault g.state then fault else s

  unfoldable pub run_state_machine : PsState → ℕ → PsStatus F → PsState × ℕ × PsStatus F
  run_state_machine s step g = let r = advance s step g in (resync r.0 r.2, r.1, r.2)

  -- One round of ControlTask on a sample.
  unfoldable pub control_round : F → F → PsState → ℕ → PsStatus F → PsState × ℕ × PsStatus F
  control_round v i s step g = run_state_machine s step (ps_status_set_measurement v i g)

abbrev pub cli_line_buf_len : ℕ
cli_line_buf_len = 64

pub data Reply : Type 0 where
  status_line : Reply
  unknown_command : Reply
  no_reply : Reply

-- The bytes of a C string, up to its terminator.
unfoldable pub c_string : List ℕ → List ℕ
c_string [] = []
c_string (c ∷ cs) = let rest = c_string cs in if c == 0 then [] else c ∷ rest

-- `strcmp(a, b) == 0`
unfoldable pub same_string : List ℕ → List ℕ → Bool
same_string [] [] = true
same_string [] (d ∷ ds) = false
same_string (c ∷ cs) [] = false
same_string (c ∷ cs) (d ∷ ds) = let rest = same_string cs ds in if c == d then rest else false

-- "status"
abbrev pub status_word : List ℕ
status_word = 115 ∷ 116 ∷ 97 ∷ 116 ∷ 117 ∷ 115 ∷ []

abbrev pub is_empty_string : List ℕ → Bool
is_empty_string [] = true
is_empty_string (c ∷ cs) = false

unfoldable pub handle_command : List ℕ → Reply
handle_command line =
    if same_string (c_string line) status_word
    then status_line
    else if is_empty_string (c_string line)
    then no_reply
    else unknown_command

-- `line_buf` and `line_len`.
pub record LineBuffer : Type 0 where
  pub line_buf : List ℕ
  pub line_len : ℕ

abbrev pub is_line_end : ℕ → Bool
is_line_end byte = (byte == 13) || (byte == 10)

-- One received byte: the buffer that `handle_command` is called on, if it is, and the state after.
unfoldable pub comms_byte : ℕ → LineBuffer → Option (List ℕ) × LineBuffer
comms_byte byte b =
    if is_line_end byte
    then (
      some (set b.line_buf b.line_len 0),
      record { line_buf = set b.line_buf b.line_len 0; line_len = 0 },
    )
    else if ltb b.line_len (cli_line_buf_len - 1)
    then (none, record { line_buf = set b.line_buf b.line_len byte; line_len = add32 b.line_len 1 })
    else (none, b)

-- The bytes of a `ps_adc_sample_t`, both members being the low 12 bits of the register.
unfoldable pub sample_bytes : ℕ → List ℕ
sample_bytes adc_dr = let raw = adc_dr % 4096 in raw % 256 ∷ raw / 256 ∷ raw % 256 ∷ raw / 256 ∷ []

abbrev pub request_if : Bool → Kernel → Kernel
request_if needs_yield k = if needs_yield then request_context_switch k else k

-- ADC_IRQHandler. `exceeds` is the comparison of the scaled sample with the two limits.
unfoldable pub adc_irq : (ℕ → Bool) → ℕ → Queue → Semaphore → Kernel → Queue × Semaphore × Kernel
adc_irq exceeds adc_dr q sem k =
    let sent = send_from_isr (sample_bytes adc_dr) q k in
    let given = give_from_isr sem sent.3 in
    if exceeds (adc_dr % 4096)
    then (sent.2, given.2, request_if (sent.1 || given.1) given.3)
    else (sent.2, sem, request_if sent.1 sent.3)

-- USART1_IRQHandler. `rxne` is the bit of the status register.
unfoldable pub usart1_irq : Bool → ℕ → Queue → Kernel → Queue × Kernel
usart1_irq rxne usart_dr q k =
    let sent = send_from_isr (usart_dr % 256 ∷ []) q k in
    if rxne then (sent.2, request_if sent.1 sent.3) else (q, k)

abbrev pub is_ok : Status → Bool
is_ok ok = true
is_ok _ = false

module _ {F : Type 0} where
  -- One round of the loop of ProtectionTask, on the result of its take. `ps_disable_output_hw` is
  -- empty.
  unfoldable pub protection_round : Status → PsStatus F → PsStatus F
  protection_round result g = if is_ok result then ps_status_note_fault g else g
