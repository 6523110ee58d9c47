-- ===== src/Common/Tids.antt =====
-- Lists of task addresses: membership, removal, no repetition.
use Prim.Native.Nat.{ℕ}
use mathlib.Core.Path.{◌≡◌, refl}
use mathlib.Core.Bool.{Bool, true, false, not, ◌&&◌, ◌||◌}
use mathlib.Core.Option.{some}
use mathlib.Core.List.{List, [], ◌∷◌, ◌++◌}
use native.Mathlib.Omega.{arith}
use nimble_rtos.Common.Tests.{◌==◌, if◌then◌else◌}
use nimble_rtos.Common.Lists.{is_nil, head?}

unfoldable pub mem : ℕ → List ℕ → Bool
mem a [] = false
mem a (x ∷ xs) = (a == x) || mem a xs

-- Every occurrence of `a` is dropped.
unfoldable pub remove : ℕ → List ℕ → List ℕ
remove a [] = []
remove a (x ∷ xs) = if a == x then remove a xs else x ∷ remove a xs

unfoldable pub distinct : List ℕ → Bool
unfolding mem
distinct [] = true
distinct (x ∷ xs) = not (mem x xs) && distinct xs

pub mem-append : (a : ℕ) (xs ys : List ℕ) → mem a (xs ++ ys) ≡ (mem a xs || mem a ys)
unfolding mem
mem-append a [] ys = refl
mem-append a (x ∷ xs) ys = ground (arith, mem-append a xs ys)

pub mem-snoc : (a : ℕ) (xs : List ℕ) (b : ℕ) → mem a (xs ++ b ∷ []) ≡ (mem a xs || (a == b))
unfolding mem
mem-snoc a xs b = ground (arith, mem-append a xs (b ∷ []))

pub mem-remove : (a b : ℕ) (xs : List ℕ) → mem a (remove b xs) ≡ (not (a == b) && mem a xs)
unfolding mem remove
mem-remove a b [] = ground arith
mem-remove a b (x ∷ xs) = ground (arith, mem-remove a b xs)

pub remove_of_not_mem : (a : ℕ) (xs : List ℕ) → mem a xs ≡ false → remove a xs ≡ xs
unfolding mem remove
remove_of_not_mem a [] h = refl
remove_of_not_mem a (x ∷ xs) h = ground (arith, remove_of_not_mem a xs)

pub distinct-snoc :
    (xs : List ℕ) (b : ℕ) → distinct xs ≡ true → mem b xs ≡ false → distinct (xs ++ b ∷ []) ≡ true
unfolding distinct
distinct-snoc [] b d h = refl
distinct-snoc (x ∷ xs) b d h = ground (arith, distinct-snoc xs b, mem-snoc x xs b)

pub distinct-remove : (a : ℕ) (xs : List ℕ) → distinct xs ≡ true → distinct (remove a xs) ≡ true
unfolding distinct remove
distinct-remove a [] d = refl
distinct-remove a (x ∷ xs) d = ground (arith, distinct-remove a xs, mem-remove x a xs)

pub not_nil_of_mem : (a : ℕ) (xs : List ℕ) → mem a xs ≡ true → is_nil xs ≡ false
unfolding mem
not_nil_of_mem a [] h = cc
not_nil_of_mem a (x ∷ xs) h = refl

pub mem_of_head : (a : ℕ) (xs : List ℕ) → head? xs ≡ some a → mem a xs ≡ true
unfolding mem
mem_of_head a [] h = cc
mem_of_head a (x ∷ xs) h = ground arith

pub head_of_not_nil : (xs : List ℕ) → is_nil xs ≡ false → (a : ℕ) × (head? xs ≡ some a)
head_of_not_nil [] h = absurd (ground arith)
head_of_not_nil (x ∷ xs) h = (x, refl)

pub not_nil_of_remove : (a : ℕ) (xs : List ℕ) → is_nil (remove a xs) ≡ false → is_nil xs ≡ false
unfolding remove
not_nil_of_remove a [] h = h
not_nil_of_remove a (x ∷ xs) h = refl
