-- ===== src/Board/Priorities.antt =====
-- port/stm32f4/system_stm32f4xx.c: the priorities after the bring-up.
use Prim.Native.Nat.{bit_and, bit_or}
use nimble_rtos.Common.{ℕ, ◌+◌, ◌-◌, ◌*◌, ◌/◌, ◌%◌, ◌^◌, ◌<◌, ◌≡◌, arith}
use nimble_rtos.Common.Bits.Fields.{
  bit_and-fields, bit_or-fields, bit_and-zero, bit_and-full, bit_or-zero,
}
use nimble_rtos.Board.{
  Board, nvic_priority_init, systick_init, system_init, pendsv_priority, systick_priority,
  nvic_prio_pendsv_systick,
}

-- The two masks together leave the low half of the register.
cleared :
    (x : ℕ)
    → x < 2 ^ 32
    → bit_and (bit_and x (2 ^ 32 - 1 - 0xff * 2 ^ 16)) (2 ^ 32 - 1 - 0xff * 2 ^ 24) ≡ x % 2 ^ 16
cleared x h =
    let q1 : ℕ = x / 2 ^ 24 in
    let q0 : ℕ = x / 2 ^ 16 % 2 ^ 8 in
    ground (
      arith,
      bit_and-fields 16 (x / 2 ^ 16) (x % 2 ^ 16) 0xff00 0xffff,
      bit_and-fields 8 q1 q0 0xff 0,
      bit_and-full 8 q1,
      bit_and-zero q0,
      bit_and-full 16 (x % 2 ^ 16),
      bit_and-fields 16 (q1 * 2 ^ 8) (x % 2 ^ 16) 0x00ff 0xffff,
      bit_and-fields 8 q1 0 0 0xff,
      bit_and-zero q1,
    )

marked :
    (x : ℕ) → x < 2 ^ 16 → bit_or (bit_or x (0xf0 * 2 ^ 16)) (0xf0 * 2 ^ 24) ≡ 0xf0f0 * 2 ^ 16 + x
marked x h = ground (
  arith,
  bit_or-fields 16 0 x 0xf0 0,
  bit_or-zero x,
  bit_or-fields 24 0 (0xf0 * 2 ^ 16 + x) 0xf0 0,
  bit_or-zero (0xf0 * 2 ^ 16 + x),
)

-- For a 32-bit value of SHPR3, after `nimble_stm32f4_system_init` the priorities of PendSV and
-- SysTick are 0xF0, the low 16 bits of the register are as before, and it still fits 32 bits.
pub system_init-priorities :
    (b : Board)
    → b.scb_shpr3 < 2 ^ 32
    → let r = system_init b in
      (pendsv_priority r ≡ nvic_prio_pendsv_systick)
      × (systick_priority r ≡ nvic_prio_pendsv_systick)
      × (r.scb_shpr3 % 2 ^ 16 ≡ b.scb_shpr3 % 2 ^ 16)
      × (r.scb_shpr3 < 2 ^ 32)
unfolding system_init nvic_priority_init systick_init
system_init-priorities b h =
    ground (arith, cleared b.scb_shpr3 h, marked (b.scb_shpr3 % 2 ^ 16) (omega arith))
