-- ===== src/Port.antt =====
-- port/arch/cortex-m4/task_stack_init.c: the initial stack frame of a task. Memory is a map from word
-- addresses, so that pointer arithmetic on `uint32_t *` is plain addition.
pub mod Frame
pub mod Critical
pub mod Context
use nimble_rtos.Common.{ℕ, ◌+◌, ◌-◌, ◌*◌, ◌/◌, ◌%◌, ◌^◌, List, [], ◌∷◌, update}
use Prim.Native.Nat.{bit_and, bit_or}
use nimble_rtos.Kernel.{Kernel, tick_rate_hz}
use nimble_rtos.Scheduler.{tick, request_context_switch}
use nimble_rtos.Common.Words.{sub32, word}

abbrev pub Memory : Type 0
Memory = ℕ → ℕ

-- `*(--sp) = v`, for each value in turn.
unfoldable pub push_all : List ℕ → ℕ → Memory → ℕ × Memory
push_all [] sp m = (sp, m)
push_all (v ∷ vs) sp m = push_all vs (sp - 1) (update m (sp - 1) v)

-- The sixteen words of the frame, in the order in which they are pushed: xPSR, PC, LR, R12, R3, R2,
-- R1, R0, then R11 down to R4. `exit_trap` is the address of `task_exit_trap`.
abbrev pub frame : ℕ → ℕ → ℕ → List ℕ
frame exit_trap fn arg =
    0x01000000 ∷ fn ∷ exit_trap ∷ 0x12121212 ∷ 0x03030303 ∷ 0x02020202 ∷ 0x01010101 ∷ arg
    ∷ 0x11111111 ∷ 0x10101010 ∷ 0x09090909 ∷ 0x08080808 ∷ 0x07070707 ∷ 0x06060606 ∷ 0x05050505
    ∷ 0x04040404 ∷ []

unfoldable pub init_task_stack : ℕ → ℕ → ℕ → ℕ → Memory → ℕ × Memory
unfolding push_all
init_task_stack exit_trap stack_top fn arg m = push_all (frame exit_trap fn arg) stack_top m
