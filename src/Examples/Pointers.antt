-- ===== src/Examples/Pointers.antt =====
-- Runs of the intrusive list.
use nimble_rtos.Common.{
  ℕ, ◌≡◌, refl, Bool, true, List, [], ◌∷◌, ◌==◌, if◌then◌else◌, arith, update, some,
}
use nimble_rtos.Common.Tids.{mem, distinct, remove}
use nimble_rtos.Waiters.{insert_sorted}
use nimble_rtos.IntrusiveList.{
  Links, list_insert_tail, list_insert_head, list_remove, insert_sorted_pointers,
}
use nimble_rtos.IntrusiveList.Sorting.{insert_sorted_pointers-Store}
use nimble_rtos.IntrusiveList.Store.{Store, list_insert_tail-Store}
use nimble_rtos.IntrusiveList.Edits.{
  Edits, unedited, appended, prepended, removed, removed_again, Edits-Store,
}

-- The heads are 100 and 101, and every list is empty.
abbrev is_head : ℕ → Bool
is_head n = if n == 100 then true else n == 101

abbrev fresh : Links
fresh = record { next = λ n. n; prev = λ n. n }

fresh-Store : Store is_head (λ l. []) fresh
unfolding mem distinct
fresh-Store = record {
  linked = λ l h. (refl, refl);
  distinct_list = λ l. refl;
  no_head = λ l n h. absurd (ground arith);
  of_head = λ l n h. absurd (ground arith);
  one_list = λ l j n h g. absurd (ground arith);
  loose = λ n h out. (refl, refl);
}

abbrev one_list : ℕ → List ℕ
one_list = update (λ l. []) 100 (7 ∷ [])

filled-Store : Store is_head one_list (list_insert_tail 100 7 fresh)
unfolding mem
filled-Store = list_insert_tail-Store fresh-Store 100 refl 7 refl (λ j. refl)

-- Node 7 at the tail, node 8 at the head, and node 7 removed, twice.
abbrev two_in : ℕ → List ℕ
two_in = update one_list 100 (8 ∷ 7 ∷ [])

abbrev two_links : Links
two_links = list_insert_head 100 8 (list_insert_tail 100 7 fresh)

edited :
    Edits is_head
      (λ j. [])
      fresh
      (λ j. remove 7 (two_in j))
      (list_remove 7 (list_remove 7 two_links))
unfolding mem remove
edited =
    removed_again _ _ 7
      (removed two_in two_links 100 7
        (prepended one_list _ 100 8 (appended (λ j. []) fresh 100 7 unedited refl (refl, λ j. refl))
          refl (refl, λ j. ground arith))
        refl refl)
      (refl, λ j. ground arith)

Edits-Store_example :
    Store is_head (λ j. remove 7 (two_in j)) (list_remove 7 (list_remove 7 two_links))
Edits-Store_example = Edits-Store fresh-Store edited

insert_sorted_pointers-Store_example :
    (h' : Links) × (insert_sorted_pointers (λ n. n) 2 100 8 (list_insert_tail 100 7 fresh)
      ≡ some h')
    × Store is_head (update one_list 100 (insert_sorted (λ n. n) 8 (one_list 100))) h'
unfolding mem
insert_sorted_pointers-Store_example =
    insert_sorted_pointers-Store filled-Store 100 refl (λ n. n) 2 8 (omega arith) refl
      (λ j. ground arith)
