-- ===== src/Common/Bits/Step.antt =====
-- The lowest bit of `&` and `|`. Both are the same recursion over the bits, with another operation on
-- a bit and another end.
use Prim.Native.Nat.{
  ℕ, zero, suc, ◌+◌, ◌*◌, ◌/◌, ◌%◌, ◌≤◌, min, max, bit_and, bit_or, digits, bit_and-bitwise,
  bit_or-bitwise,
}
use mathlib.Core.Path.{◌≡◌, refl}
use native.Mathlib.Omega.{arith}

module _ (end : ℕ → ℕ) (on_bit : ℕ → ℕ → ℕ) where
  -- More fuel than the first number needs makes no difference.
  settled :
      (x fuel more y : ℕ)
      → x ≤ fuel
      → x ≤ more
      → digits end on_bit fuel x y ≡ digits end on_bit more x y
  settled zero zero zero y f g = refl
  settled zero zero (suc more) y f g = refl
  settled zero (suc fuel) zero y f g = refl
  settled zero (suc fuel) (suc more) y f g = refl
  settled (suc x) zero more y f g = absurd (omega arith)
  settled (suc x) (suc fuel) zero y f g = absurd (omega arith)
  settled (suc x) (suc fuel) (suc more) y f g =
      let next : ℕ = suc x / 2 in
      let same = settled next fuel more (y / 2) (omega arith) (omega arith) in omega (arith, same)

  pub lowest :
      (x y : ℕ)
      → digits end on_bit (suc x) (suc x) y
        ≡ digits end on_bit (suc x / 2) (suc x / 2) (y / 2) * 2 + on_bit (suc x % 2) (y % 2)
  lowest x y =
      let next : ℕ = suc x / 2 in
      let same = settled next x next (y / 2) (omega arith) (omega arith) in omega (arith, same)

pub lowest_of_and : (x y : ℕ) → bit_and x y ≡ bit_and (x / 2) (y / 2) * 2 + min (x % 2) (y % 2)
lowest_of_and zero y =
    let whole = bit_and-bitwise 0 y in
    let half = bit_and-bitwise 0 (y / 2) in omega (arith, whole, half)
lowest_of_and (suc x) y =
    let whole = bit_and-bitwise (suc x) y in
    let half = bit_and-bitwise (suc x / 2) (y / 2) in
    let law = lowest (λ y. zero) min x y in omega (arith, whole, half, law)

pub lowest_of_or : (x y : ℕ) → bit_or x y ≡ bit_or (x / 2) (y / 2) * 2 + max (x % 2) (y % 2)
lowest_of_or zero y =
    let whole = bit_or-bitwise 0 y in
    let half = bit_or-bitwise 0 (y / 2) in omega (arith, whole, half)
lowest_of_or (suc x) y =
    let whole = bit_or-bitwise (suc x) y in
    let half = bit_or-bitwise (suc x / 2) (y / 2) in
    let law = lowest (λ y. y) max x y in omega (arith, whole, half, law)

or_nothing_below : (bound x : ℕ) → x ≤ bound → bit_or x 0 ≡ x
or_nothing_below bound zero h = refl
or_nothing_below zero (suc x) h = absurd (omega arith)
or_nothing_below (suc bound) (suc x) h =
    let half = or_nothing_below bound (suc x / 2) (omega arith) in
    let law = lowest_of_or (suc x) 0 in omega (arith, half, law)

pub or_nothing : (x : ℕ) → bit_or x 0 ≡ x
or_nothing x = or_nothing_below x x (omega arith)
