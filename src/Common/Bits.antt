-- ===== src/Common/Bits.antt =====
-- The bits of a word: `|= 1u << p`, `&= ~(1u << p)` and their effect on each bit.
mod Step
pub mod Fields
use Prim.Native.Nat.{
  ℕ, zero, suc, ◌+◌, ◌-◌, ◌*◌, ◌/◌, ◌%◌, ◌^◌, ◌≤◌, ◌<◌, min, max, bit_and, bit_or,
}
use mathlib.Core.Path.{◌≡◌, refl}
use mathlib.Core.Logic.{inl, inr}
use mathlib.Core.Bool.{Bool, true, false, not, ◌&&◌, ◌||◌}
use native.Mathlib.Omega.{arith}
use native.Mathlib.Nat.{pow-suc, one-le-pow}
use nimble_rtos.Common.Tests.{◌==◌, if◌then◌else◌, Bool-cases}
use Step.{lowest_of_and, lowest_of_or, or_nothing}

-- Bit `p` of `b`.
unfoldable pub test_bit : ℕ → ℕ → Bool
test_bit b zero = b % 2 == 1
test_bit b (suc p) = test_bit (b / 2) p

-- `b | (1u << p)`
unfoldable pub set_bit : ℕ → ℕ → ℕ
set_bit b p = bit_or b (2 ^ p)

-- `b & ~(1u << p)` on a word of `w` bits
unfoldable pub clear_bit : ℕ → ℕ → ℕ → ℕ
clear_bit w b p = bit_and b (2 ^ w - 1 - 2 ^ p)

bit_or-half : (a b : ℕ) → bit_or a b / 2 ≡ bit_or (a / 2) (b / 2)
bit_or-half a b = omega (arith, lowest_of_or a b)

bit_or-parity : (a b : ℕ) → bit_or a b % 2 ≡ max (a % 2) (b % 2)
bit_or-parity a b = omega (arith, lowest_of_or a b)

bit_and-half : (a b : ℕ) → bit_and a b / 2 ≡ bit_and (a / 2) (b / 2)
bit_and-half a b = omega (arith, lowest_of_and a b)

bit_and-parity : (a b : ℕ) → bit_and a b % 2 ≡ min (a % 2) (b % 2)
bit_and-parity a b = omega (arith, lowest_of_and a b)

pow-half : (p : ℕ) → 2 ^ suc p / 2 ≡ 2 ^ p
pow-half p = omega (arith, pow-suc 2 p)

pow-parity : (p : ℕ) → 2 ^ suc p % 2 ≡ 0
pow-parity p = omega (arith, pow-suc 2 p)

-- After `b |= 1u << p` bit `p` is set and the others are as before.
pub test_bit-set : (b p q : ℕ) → test_bit (set_bit b p) q ≡ ((p == q) || test_bit b q)
unfolding test_bit set_bit
test_bit-set b zero zero = ground (arith, bit_or-parity b 1)
test_bit-set b zero (suc q) = rw (bit_or-half b 1) (rw (or_nothing (b / 2)) (ground arith))
test_bit-set b (suc p) zero = ground (arith, bit_or-parity b (2 ^ suc p), pow-parity p)
test_bit-set b (suc p) (suc q) =
    rw (bit_or-half b (2 ^ suc p)) (rw (pow-half p) (ground (arith, test_bit-set (b / 2) p q)))

abbrev full : ℕ → ℕ
full w = 2 ^ w - 1

test_bit-full : (w b q : ℕ) → q < w → test_bit (bit_and b (full w)) q ≡ test_bit b q
unfolding test_bit
test_bit-full zero b q h = absurd (omega arith)
test_bit-full (suc w) b zero h =
    ground (arith, bit_and-parity b (full (suc w)), pow-suc 2 w, one-le-pow w 2)
test_bit-full (suc w) b (suc q) h =
    let e : full (suc w) / 2 ≡ full w = omega (arith, pow-suc 2 w, one-le-pow w 2) in
    rw (bit_and-half b (full (suc w))) (rw e (test_bit-full w (b / 2) q (omega arith)))

pow-lt : (p w : ℕ) → p < w → 2 ^ p < 2 ^ w
pow-lt p zero h = absurd (omega arith)
pow-lt zero (suc w) h = omega (arith, pow-suc 2 w, one-le-pow w 2)
pow-lt (suc p) (suc w) h = omega (arith, pow-suc 2 w, pow-suc 2 p, pow-lt p w (omega arith))

abbrev mask : ℕ → ℕ → ℕ
mask w p = 2 ^ w - 1 - 2 ^ p

-- After `b &= ~(1u << p)` bit `p` is clear and the others are as before.
pub test_bit-clear :
    (w b p q : ℕ) → p < w → q < w → test_bit (clear_bit w b p) q ≡ (not (p == q) && test_bit b q)
unfolding test_bit clear_bit
test_bit-clear zero b p q hp hq = absurd (omega arith)
test_bit-clear (suc w) b zero zero hp hq =
    let e : mask (suc w) 0 % 2 ≡ 0 = omega (arith, pow-suc 2 w, one-le-pow w 2) in
    ground (arith, bit_and-parity b (mask (suc w) 0))
test_bit-clear (suc w) b zero (suc q) hp hq =
    let e : mask (suc w) 0 / 2 ≡ full w = omega (arith, pow-suc 2 w, one-le-pow w 2) in
    rw (bit_and-half b (mask (suc w) 0))
      (rw e (ground (arith, test_bit-full w (b / 2) q (omega arith))))
test_bit-clear (suc w) b (suc p) zero hp hq =
    let e : mask (suc w) (suc p) % 2 ≡ 1 =
      omega (arith, pow-suc 2 w, pow-suc 2 p, pow-lt p w (omega arith)) in
    ground (arith, bit_and-parity b (mask (suc w) (suc p)))
test_bit-clear (suc w) b (suc p) (suc q) hp hq =
    let e : mask (suc w) (suc p) / 2 ≡ mask w p =
      omega (arith, pow-suc 2 w, pow-suc 2 p, pow-lt p w (omega arith)) in
    rw (bit_and-half b (mask (suc w) (suc p)))
      (rw e (ground (arith, test_bit-clear w (b / 2) p q (omega arith) (omega arith))))

pub test_bit-zero : (q : ℕ) → test_bit 0 q ≡ false
unfolding test_bit
test_bit-zero zero = refl
test_bit-zero (suc q) = test_bit-zero q

-- `__builtin_clz` on a word of `w` bits: the zeros above the highest set bit. It counts down from
-- the top bit; on 0, where the builtin is undefined, it is `w`.
unfoldable pub clz : ℕ → ℕ → ℕ
unfolding test_bit
clz zero b = 0
clz (suc i) b = if test_bit b i then 0 else suc (clz i b)

pub clz-le : (w b : ℕ) → clz w b ≤ w
unfolding clz
clz-le zero b = omega arith
clz-le (suc i) b = ground (arith, clz-le i b)

-- All bits from the reported one on are clear.
pub clz_above : (w b q : ℕ) → w - clz w b ≤ q → q < w → test_bit b q ≡ false
unfolding clz
clz_above zero b q h k = absurd (omega arith)
clz_above (suc i) b q h k = elim (Bool-cases (q == i)) [
  | inl top ↦ ground (arith, clz_above i b q)
  | inr other ↦ ground (arith, clz_above i b q, clz-le i b)
]

pub clz_found : (w b : ℕ) → clz w b < w → test_bit b (w - 1 - clz w b) ≡ true
unfolding clz
clz_found zero b h = absurd (omega arith)
clz_found (suc i) b h = elim (Bool-cases (test_bit b i)) [
  | inl here ↦ let e : suc i - 1 - 0 ≡ i = omega arith in rw here (rw e here)
  | inr below ↦
      let e : suc i - 1 - suc (clz i b) ≡ i - 1 - clz i b = omega arith in
      rw below (rw e (clz_found i b (ground arith)))
]
