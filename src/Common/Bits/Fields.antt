-- ===== src/Common/Bits/Fields.antt =====
-- `&` and `|` of words cut into a high and a low field.
use Prim.Native.Nat.{ℕ, zero, suc, ◌+◌, ◌*◌, ◌/◌, ◌^◌, ◌<◌, ◌-◌, bit_and, bit_or}
use mathlib.Core.Path.{◌≡◌, refl, ap}
use native.Mathlib.Omega.{arith}
use native.Mathlib.Nat.{pow-suc, one-le-pow}
use nimble_rtos.Common.Bits.Step.{lowest_of_and, lowest_of_or, or_nothing}

mul-two_pow_suc : (q k : ℕ) → q * 2 ^ suc k ≡ 2 * (q * 2 ^ k)
mul-two_pow_suc q k = omega (arith, ap (λ (t : ℕ). q * t) (pow-suc 2 k))

-- The fields of `a & b` are those of `a` and `b`, taken together.
pub bit_and-fields :
    (k q r q' r' : ℕ)
    → r < 2 ^ k
    → r' < 2 ^ k
    → bit_and (q * 2 ^ k + r) (q' * 2 ^ k + r') ≡ bit_and q q' * 2 ^ k + bit_and r r'
bit_and-fields zero q r q' r' h h' = ground (arith, lowest_of_and r r')
bit_and-fields (suc k) q r q' r' h h' = ground (
  arith,
  lowest_of_and (q * 2 ^ suc k + r) (q' * 2 ^ suc k + r'),
  lowest_of_and r r',
  mul-two_pow_suc q k,
  mul-two_pow_suc q' k,
  mul-two_pow_suc (bit_and q q') k,
  pow-suc 2 k,
  bit_and-fields k q (r / 2) q' (r' / 2) (omega (arith, pow-suc 2 k)) (omega (arith, pow-suc 2 k)),
)

pub bit_or-fields :
    (k q r q' r' : ℕ)
    → r < 2 ^ k
    → r' < 2 ^ k
    → bit_or (q * 2 ^ k + r) (q' * 2 ^ k + r') ≡ bit_or q q' * 2 ^ k + bit_or r r'
bit_or-fields zero q r q' r' h h' = ground (arith, lowest_of_or r r')
bit_or-fields (suc k) q r q' r' h h' = ground (
  arith,
  lowest_of_or (q * 2 ^ suc k + r) (q' * 2 ^ suc k + r'),
  lowest_of_or r r',
  mul-two_pow_suc q k,
  mul-two_pow_suc q' k,
  mul-two_pow_suc (bit_or q q') k,
  pow-suc 2 k,
  bit_or-fields k q (r / 2) q' (r' / 2) (omega (arith, pow-suc 2 k)) (omega (arith, pow-suc 2 k)),
)

bit_and-zero_below : (bound a : ℕ) → a < suc bound → bit_and a 0 ≡ 0
bit_and-zero_below bound zero h = refl
bit_and-zero_below zero (suc a) h = absurd (omega arith)
bit_and-zero_below (suc bound) (suc a) h =
    omega (arith, lowest_of_and (suc a) 0, bit_and-zero_below bound (suc a / 2) (omega arith))

pub bit_and-zero : (a : ℕ) → bit_and a 0 ≡ 0
bit_and-zero a = bit_and-zero_below a a (omega arith)

-- A mask of `k` low bits keeps a number that fits them.
pub bit_and-full : (k a : ℕ) → a < 2 ^ k → bit_and a (2 ^ k - 1) ≡ a
bit_and-full zero a h = ground (arith, bit_and-zero a)
bit_and-full (suc k) a h = ground (
  arith,
  lowest_of_and a (2 ^ suc k - 1),
  pow-suc 2 k,
  one-le-pow k 2,
  bit_and-full k (a / 2) (omega (arith, pow-suc 2 k)),
)

pub bit_or-zero : (a : ℕ) → bit_or a 0 ≡ a
bit_or-zero a = or_nothing a
