-- ===== src/IntrusiveList.antt =====
-- kernel/include/nimble_list.h: circular doubly linked lists through nodes that live inside other
-- objects. Memory holds the two pointers of each node, by the address of the node; a list head is a
-- node, and a head that points to itself is the empty list.
pub mod Chain
pub mod Store
pub mod Sorting
pub mod Edits
use nimble_rtos.Common.{ℕ, zero, suc, Bool, Option, none, some, ◌==◌, if◌then◌else◌, ltb, update}

pub record Links : Type 0 where
  pub next : ℕ → ℕ
  pub prev : ℕ → ℕ

abbrev pub set_next : ℕ → ℕ → Links → Links
set_next n v h = record h { next = update h.next n v }

abbrev pub set_prev : ℕ → ℕ → Links → Links
set_prev n v h = record h { prev = update h.prev n v }

-- `nimble_list_init`
unfoldable pub list_init : ℕ → Links → Links
list_init list h = set_prev list list (set_next list list h)

-- `nimble_list_is_empty`
unfoldable pub list_is_empty : ℕ → Links → Bool
list_is_empty list h = h.next list == list

-- `nimble_list_insert_tail`, one assignment after the other
unfoldable pub list_insert_tail : ℕ → ℕ → Links → Links
list_insert_tail head node h =
    let h1 = set_prev node (h.prev head) h in
    let h2 = set_next node head h1 in
    let h3 = set_next (h2.prev head) node h2 in set_prev head node h3

-- `nimble_list_insert_head`
unfoldable pub list_insert_head : ℕ → ℕ → Links → Links
list_insert_head head node h =
    let h1 = set_next node (h.next head) h in
    let h2 = set_prev node head h1 in
    let h3 = set_prev (h2.next head) node h2 in set_next head node h3

-- `nimble_list_remove`
unfoldable pub list_remove : ℕ → Links → Links
list_remove node h =
    let h1 = set_next (h.prev node) (h.next node) h in
    let h2 = set_prev (h1.next node) (h1.prev node) h1 in
    let h3 = set_next node node h2 in set_prev node node h3

-- The four assignments that end the sorted insertions of mutex.c, semaphore.c, queue.c and timer.c:
-- `node` goes immediately before `at`.
unfoldable pub insert_before : ℕ → ℕ → Links → Links
insert_before at node h =
    let h1 = set_next node at h in
    let h2 = set_prev node (h1.prev at) h1 in
    let h3 = set_next (h2.prev at) node h2 in set_prev at node h3

-- The loop of the sorted insertions, from `node` on: the first node that `stop` tells to go behind
-- the new one, or the head. `none` is no answer on this fuel.
unfoldable pub find_place : (ℕ → Bool) → ℕ → ℕ → ℕ → Links → Option ℕ
find_place stop zero list node h = none
find_place stop (suc fuel) list node h =
    let rest = find_place stop fuel list (h.next node) h in
    if node == list then some node else if stop node then some node else rest

unfoldable pub insert_found : ℕ → Links → Option ℕ → Option Links
unfolding insert_before
insert_found node h none = none
insert_found node h (some at) = some (insert_before at node h)

-- `insert_waiter_priority_sorted` on pointers. `prio n` is the priority of the TCB around node `n`.
unfoldable pub insert_sorted_pointers : (ℕ → ℕ) → ℕ → ℕ → ℕ → Links → Option Links
insert_sorted_pointers prio fuel waiters node h =
    insert_found node h (find_place (λ o. ltb (prio o) (prio node)) fuel waiters (h.next waiters) h)
