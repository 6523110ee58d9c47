-- ===== src/IntrusiveList/Sorting.antt =====
-- kernel/src/mutex.c, semaphore.c and queue.c: the loop of `insert_waiter_priority_sorted` over the
-- pointers, against the insertion into a sequence.
use nimble_rtos.Common.{
  ℕ, zero, suc, ◌<◌, ◌≡◌, refl, Bool, true, false, ◌||◌, some, List, [], ◌∷◌, ◌==◌, arith,
  if◌then◌else◌, update, length, ltb, ap, subst,
}
use nimble_rtos.Common.Tids.{mem, distinct}
use nimble_rtos.IntrusiveList.{
  Links, insert_before, find_place, insert_found, insert_sorted_pointers,
}
use nimble_rtos.IntrusiveList.Chain.{Chain, insert_at}
use nimble_rtos.IntrusiveList.Store.{Store, insert_before-Store}
use nimble_rtos.Waiters.{insert_sorted}

-- The first node at which the walk stops, or the head.
abbrev place : (ℕ → Bool) → List ℕ → ℕ → ℕ
place stop [] l = l
place stop (x ∷ xs) l = if stop x then x else place stop xs l

find_place-place :
    (stop : ℕ → Bool) (fuel a l : ℕ) (xs : List ℕ) (h : Links)
    → Chain h a xs l
    → mem l xs ≡ false
    → length xs < fuel
    → find_place stop fuel l (h.next a) h ≡ some (place stop xs l)
unfolding find_place mem
find_place-place stop zero a l xs h c out enough = absurd (omega arith)
find_place-place stop (suc n) a l [] h c out enough = ground arith
find_place-place stop (suc n) a l (x ∷ xs) h c out enough =
    ground (arith, find_place-place stop n x l xs h)

place_on :
    (stop : ℕ → Bool) (l : ℕ) (xs : List ℕ)
    → (mem (place stop xs l) xs || (place stop xs l == l)) ≡ true
unfolding mem
place_on stop l [] = ground arith
place_on stop l (x ∷ xs) = ground (arith, place_on stop l xs)

place-insert_sorted :
    (prio : ℕ → ℕ) (node l : ℕ) (xs : List ℕ)
    → distinct xs ≡ true
    → mem l xs ≡ false
    → insert_at (place (λ o. ltb (prio o) (prio node)) xs l) node xs ≡ insert_sorted prio node xs
unfolding mem distinct insert_at insert_sorted
place-insert_sorted prio node l [] d out = refl
place-insert_sorted prio node l (x ∷ xs) d out =
    ground
      (arith, place-insert_sorted prio node l xs, place_on (λ o. ltb (prio o) (prio node)) l xs)

-- On a memory whose pointers carry the sequences `lists`, with fuel above the length of list `l`,
-- the pointer loop of `insert_waiter_priority_sorted` and its four assignments end, and leave
-- pointers that carry the same sequences, but for `l`, which has got the free node inserted by
-- priority.
pub insert_sorted_pointers-Store :
    {is_head : ℕ → Bool} {lists : ℕ → List ℕ} {h : Links}
    → Store is_head lists h
    → (l : ℕ) → is_head l ≡ true
    → (prio : ℕ → ℕ) (fuel node : ℕ) → length (lists l) < fuel
    → is_head node ≡ false
    → ((j : ℕ) → mem node (lists j) ≡ false)
    → (h' : Links) × (insert_sorted_pointers prio fuel l node h ≡ some h')
      × Store is_head (update lists l (insert_sorted prio node (lists l))) h'
unfolding insert_sorted_pointers insert_found
insert_sorted_pointers-Store {is_head} {lists} {h} s l hl prio fuel node enough nh out =
    let stop : ℕ → Bool = λ o. ltb (prio o) (prio node) in
    let not_own : mem l (lists l) ≡ false = ground (arith, s.no_head l l) in
    let at = place stop (lists l) l in
    let found = find_place-place stop fuel l l (lists l) h (s.linked l hl) not_own enough in
    let sorted = place-insert_sorted prio node l (lists l) (s.distinct_list l) not_own in
    (
      insert_before at node h,
      ap (insert_found node h) found,
      subst (λ zs. Store is_head (update lists l zs) (insert_before at node h)) sorted
          (insert_before-Store s l hl at node nh out (place_on stop l (lists l))),
    )
