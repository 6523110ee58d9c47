-- ===== src/Common/Words.antt =====
-- `uint32_t` arithmetic on numbers below `2 ^ 32`, and the sign of a difference read as `int32_t`.
use Prim.Native.Nat.{ℕ, ◌+◌, ◌-◌, ◌%◌, ◌^◌, ◌≤◌, ◌<◌}
use mathlib.Core.Path.{◌≡◌}
use mathlib.Core.Bool.{Bool, true}
use mathlib.Core.Logic.{◌↔◌}
use native.Mathlib.Omega.{arith}
use nimble_rtos.Common.Tests.{ltb}

abbrev pub word : ℕ
word = 2 ^ 32

unfoldable pub add32 : ℕ → ℕ → ℕ
add32 a b = (a + b) % word

unfoldable pub sub32 : ℕ → ℕ → ℕ
sub32 a b = (a + word - b) % word

-- `(int32_t)(a - b) >= 0`
unfoldable pub not_before : ℕ → ℕ → Bool
unfolding sub32
not_before a b = ltb (sub32 a b) (2 ^ 31)

-- A deadline set `n` ticks ahead is reached exactly when `n` ticks have gone by, for a wait and an
-- elapsed time below half the range of the counter.
pub not_before-deadline :
    (now n j : ℕ)
    → 0 < n
    → n ≤ 2 ^ 31
    → j < 2 ^ 31
    → (not_before (add32 now j) (add32 now n) ≡ true) ↔ (n ≤ j)
unfolding not_before add32
not_before-deadline now n j pos small short = ground arith
