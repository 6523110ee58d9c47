-- ===== src/Waiters/Sorted.antt =====
-- kernel/src/mutex.c, semaphore.c and queue.c: the order of a wait list.
use nimble_rtos.Common.{
  ℕ, ◌≤◌, ◌<◌, ◌≡◌, refl, Bool, true, false, ◌&&◌, ◌||◌, List, [], ◌∷◌, ◌++◌, ◌==◌, arith, some,
  head?, leb, if◌then◌else◌,
}
use nimble_rtos.Common.Tids.{mem, distinct, remove}
use nimble_rtos.Waiters.{insert_sorted}

-- `p` bounds the priority of every task of the list.
unfoldable pub all_at_most : (ℕ → ℕ) → ℕ → List ℕ → Bool
all_at_most prio p [] = true
all_at_most prio p (x ∷ xs) = leb (prio x) p && all_at_most prio p xs

-- Highest priority first.
unfoldable pub is_sorted : (ℕ → ℕ) → List ℕ → Bool
unfolding all_at_most
is_sorted prio [] = true
is_sorted prio (x ∷ xs) = all_at_most prio (prio x) xs && is_sorted prio xs

-- The waiters of a given priority, in order.
unfoldable pub at_priority : (ℕ → ℕ) → ℕ → List ℕ → List ℕ
at_priority prio p [] = []
at_priority prio p (x ∷ xs) =
    if prio x == p then x ∷ at_priority prio p xs else at_priority prio p xs

pub mem-insert_sorted :
    (prio : ℕ → ℕ) (s t : ℕ) (xs : List ℕ)
    → mem s (insert_sorted prio t xs) ≡ ((s == t) || mem s xs)
unfolding mem insert_sorted
mem-insert_sorted prio s t [] = refl
mem-insert_sorted prio s t (x ∷ xs) = ground (arith, mem-insert_sorted prio s t xs)

pub distinct-insert_sorted :
    (prio : ℕ → ℕ) (t : ℕ) (xs : List ℕ)
    → distinct xs ≡ true
    → mem t xs ≡ false
    → distinct (insert_sorted prio t xs) ≡ true
unfolding distinct insert_sorted
distinct-insert_sorted prio t [] d h = refl
distinct-insert_sorted prio t (x ∷ xs) d h =
    ground (arith, distinct-insert_sorted prio t xs, mem-insert_sorted prio x t xs)

all_at_most_trans :
    (prio : ℕ → ℕ) (p q : ℕ) (xs : List ℕ)
    → p ≤ q
    → all_at_most prio p xs ≡ true
    → all_at_most prio q xs ≡ true
unfolding all_at_most
all_at_most_trans prio p q [] h a = refl
all_at_most_trans prio p q (x ∷ xs) h a = ground (arith, all_at_most_trans prio p q xs)

all_at_most-insert :
    (prio : ℕ → ℕ) (p t : ℕ) (xs : List ℕ)
    → all_at_most prio p xs ≡ true
    → prio t ≤ p
    → all_at_most prio p (insert_sorted prio t xs) ≡ true
unfolding all_at_most insert_sorted
all_at_most-insert prio p t [] a h = ground arith
all_at_most-insert prio p t (x ∷ xs) a h = ground (arith, all_at_most-insert prio p t xs)

-- Inserting a waiter into a list sorted by falling priority gives a sorted list.
pub insert_sorted-is_sorted :
    (prio : ℕ → ℕ) (t : ℕ) (xs : List ℕ)
    → is_sorted prio xs ≡ true
    → is_sorted prio (insert_sorted prio t xs) ≡ true
unfolding is_sorted insert_sorted
insert_sorted-is_sorted prio t [] s = refl
insert_sorted-is_sorted prio t (x ∷ xs) s = ground (
  arith,
  insert_sorted-is_sorted prio t xs,
  all_at_most-insert prio (prio x) t xs,
  all_at_most_trans prio (prio x) (prio t) xs,
)

pub all_at_most-mem :
    (prio : ℕ → ℕ) (p s : ℕ) (xs : List ℕ)
    → all_at_most prio p xs ≡ true
    → mem s xs ≡ true
    → prio s ≤ p
unfolding all_at_most mem
all_at_most-mem prio p s [] a h = absurd (ground arith)
all_at_most-mem prio p s (x ∷ xs) a h = ground (arith, all_at_most-mem prio p s xs)

-- The head of a sorted list has the highest priority of all waiters.
pub head_is_highest :
    (prio : ℕ → ℕ) (t s : ℕ) (xs : List ℕ)
    → is_sorted prio xs ≡ true
    → head? xs ≡ some t
    → mem s xs ≡ true
    → prio s ≤ prio t
unfolding is_sorted mem
head_is_highest prio t s [] so h m = absurd (ground arith)
head_is_highest prio t s (x ∷ xs) so h m = ground (arith, all_at_most-mem prio (prio x) s xs)

at_priority-none :
    (prio : ℕ → ℕ) (p q : ℕ) (xs : List ℕ)
    → all_at_most prio q xs ≡ true
    → q < p
    → at_priority prio p xs ≡ []
unfolding at_priority all_at_most
at_priority-none prio p q [] a h = refl
at_priority-none prio p q (x ∷ xs) a h = ground (arith, at_priority-none prio p q xs)

-- Inserting a waiter into a sorted list puts it behind all the waiters of its own priority and
-- leaves the order of each priority as it was.
pub at_priority-insert_sorted :
    (prio : ℕ → ℕ) (p t : ℕ) (xs : List ℕ)
    → is_sorted prio xs ≡ true
    → at_priority prio p (insert_sorted prio t xs)
      ≡ (if prio t == p then at_priority prio p xs ++ t ∷ [] else at_priority prio p xs)
unfolding at_priority insert_sorted is_sorted
at_priority-insert_sorted prio p t [] s = ground arith
at_priority-insert_sorted prio p t (x ∷ xs) s =
    ground (arith, at_priority-insert_sorted prio p t xs, at_priority-none prio p (prio x) xs)

all_at_most_ext :
    (p q : ℕ → ℕ) (b : ℕ) (xs : List ℕ)
    → ((s : ℕ) → mem s xs ≡ true → p s ≡ q s)
    → all_at_most p b xs ≡ true
    → all_at_most q b xs ≡ true
unfolding all_at_most mem
all_at_most_ext p q b [] same a = refl
all_at_most_ext p q b (x ∷ xs) same a =
    ground (arith, same x, all_at_most_ext p q b xs (λ s m. same s (ground arith)))

-- The order depends only on the priorities of the waiters.
pub is_sorted_ext :
    (p q : ℕ → ℕ) (xs : List ℕ)
    → ((s : ℕ) → mem s xs ≡ true → p s ≡ q s)
    → is_sorted p xs ≡ true
    → is_sorted q xs ≡ true
unfolding is_sorted mem
is_sorted_ext p q [] same so = refl
is_sorted_ext p q (x ∷ xs) same so =
    let rest = is_sorted_ext p q xs (λ s m. same s (ground arith)) in
    let below = all_at_most_ext p q (p x) xs (λ s m. same s (ground arith)) in
    ground (arith, same x)

all_at_most-remove :
    (p : ℕ → ℕ) (b t : ℕ) (xs : List ℕ)
    → all_at_most p b xs ≡ true
    → all_at_most p b (remove t xs) ≡ true
unfolding all_at_most remove
all_at_most-remove p b t [] a = refl
all_at_most-remove p b t (x ∷ xs) a = ground (arith, all_at_most-remove p b t xs)

-- A waiter that leaves does not disturb the order.
pub is_sorted-remove :
    (p : ℕ → ℕ) (t : ℕ) (xs : List ℕ) → is_sorted p xs ≡ true → is_sorted p (remove t xs) ≡ true
unfolding is_sorted remove
is_sorted-remove p t [] so = refl
is_sorted-remove p t (x ∷ xs) so =
    ground (arith, is_sorted-remove p t xs, all_at_most-remove p (p x) t xs)
