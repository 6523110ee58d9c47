-- ===== src/Board.antt =====
-- port/stm32f4: the registers of stm32f4_regs.h that the port writes and the bring-up of
-- system_stm32f4xx.c. A register holds the last value written to it.
pub mod Clock
pub mod Priorities
use Prim.Native.Nat.{bit_and, bit_or}
use nimble_rtos.Common.{ℕ, ◌-◌, ◌*◌, ◌/◌, ◌%◌, ◌^◌}
use nimble_rtos.Common.Words.{sub32}
use nimble_rtos.Kernel.{tick_rate_hz}

pub record Board : Type 0 where
  pub scb_shpr3 : ℕ
  pub stk_ctrl : ℕ
  pub stk_load : ℕ
  pub stk_val : ℕ

abbrev pub stk_ctrl_enable : ℕ
stk_ctrl_enable = 1

abbrev pub stk_ctrl_tickint : ℕ
stk_ctrl_tickint = 2

abbrev pub stk_ctrl_clksource : ℕ
stk_ctrl_clksource = 4

abbrev pub hsi_clock_hz : ℕ
hsi_clock_hz = 16000000

abbrev pub nvic_prio_pendsv_systick : ℕ
nvic_prio_pendsv_systick = 0xf0

-- `shpr3 &= ~(0xFF << n)`
abbrev clear_byte : ℕ → ℕ → ℕ
clear_byte n shpr3 = bit_and shpr3 (2 ^ 32 - 1 - 0xff * 2 ^ n)

-- `shpr3 |= (NVIC_PRIO_PENDSV_SYSTICK << n)`
abbrev set_byte : ℕ → ℕ → ℕ
set_byte n shpr3 = bit_or shpr3 (nvic_prio_pendsv_systick * 2 ^ n)

unfoldable pub nvic_priority_init : Board → Board
nvic_priority_init b = record b {
  scb_shpr3 = set_byte 24 (set_byte 16 (clear_byte 24 (clear_byte 16 b.scb_shpr3)));
}

unfoldable pub systick_init : ℕ → Board → Board
systick_init core_clock_hz b = record b {
  stk_load = sub32 (core_clock_hz / tick_rate_hz) 1;
  stk_val = 0;
  stk_ctrl = bit_or (bit_or stk_ctrl_clksource stk_ctrl_tickint) stk_ctrl_enable;
}

unfoldable pub system_init : Board → Board
system_init b = systick_init hsi_clock_hz (nvic_priority_init b)

-- The priority fields of SHPR3: PendSV has bits 16 to 23, SysTick bits 24 to 31.
abbrev pub pendsv_priority : Board → ℕ
pendsv_priority b = b.scb_shpr3 / 2 ^ 16 % 2 ^ 8

abbrev pub systick_priority : Board → ℕ
systick_priority b = b.scb_shpr3 / 2 ^ 24 % 2 ^ 8
