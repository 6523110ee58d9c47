-- ===== src/Board/Clock.antt =====
-- port/stm32f4/system_stm32f4xx.c: the period of the tick.
use nimble_rtos.Common.{ℕ, ◌+◌, ◌%◌, ◌/◌, ◌*◌, ◌^◌, ◌≤◌, ◌<◌, ◌≡◌, ◌↔◌, arith}
use nimble_rtos.Common.Words.{sub32}
use nimble_rtos.Kernel.{tick_rate_hz}
use nimble_rtos.Board.{Board, systick_init, system_init, hsi_clock_hz}

-- SysTick counts from the reload value down to 0, so one period is a cycle longer.
abbrev pub tick_period : Board → ℕ
tick_period b = b.stk_load + 1

-- For a core clock below 2^32 Hz, the period that SysTick is set to is the clock divided by the
-- tick rate, modulo 2^32; the reload value fits the 24 bits of its register exactly if the clock
-- is at least the tick rate; and after `nimble_stm32f4_system_init` the period is exactly one
-- thousandth of 16 MHz.
pub systick_init-period :
    (c : ℕ) (b : Board)
    → c < 2 ^ 32
    → let r = systick_init c b in
      (tick_period r % 2 ^ 32 ≡ c / tick_rate_hz)
      × ((r.stk_load < 2 ^ 24) ↔ (tick_rate_hz ≤ c))
      × (tick_period (system_init b) * tick_rate_hz ≡ hsi_clock_hz)
unfolding systick_init system_init sub32
systick_init-period c b h = ground arith
