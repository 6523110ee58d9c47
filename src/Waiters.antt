-- ===== src/Waiters.antt =====
-- The wait lists of the synchronisation objects: `insert_waiter_priority_sorted`, of which
-- kernel/src/mutex.c, semaphore.c and queue.c each hold a copy.
pub mod Sorted
pub mod Blocking
pub mod Woken
use nimble_rtos.Common.{ℕ, Option, none, some, List, [], ◌∷◌, if◌then◌else◌, ltb, update}
use nimble_rtos.Kernel.{Status, Kernel}
use nimble_rtos.Scheduler.{prepare_block, request_context_switch}

-- The new node goes before the first waiter of lower priority, else to the tail.
unfoldable pub insert_sorted : (ℕ → ℕ) → ℕ → List ℕ → List ℕ
insert_sorted prio t [] = t ∷ []
insert_sorted prio t (o ∷ os) =
    if ltb (prio o) (prio t) then t ∷ o ∷ os else o ∷ insert_sorted prio t os

abbrev pub priority_of : Kernel → ℕ → ℕ
priority_of k t = (k.tcbs t).priority

unfoldable pub insert_waiter_priority_sorted : ℕ → ℕ → Kernel → Kernel
unfolding insert_sorted
insert_waiter_priority_sorted w t k = record k {
  wait_lists = update k.wait_lists w (insert_sorted (priority_of k) t (k.wait_lists w));
}

-- What the first half of a call that may block does: it returns, or the task waits.
pub data Outcome : Type 0 where
  returned : Status → Outcome
  waits : Outcome

-- How every blocking call ends its first critical section: into the wait list, off the ready side,
-- and a switch.
unfoldable pub wait_on : ℕ → ℕ → ℕ → Kernel → Kernel
wait_on w timeout_ticks self k =
    request_context_switch
      (prepare_block self timeout_ticks (insert_waiter_priority_sorted w self k))

-- `if (woken != NULL) nimble_port_request_context_switch()`
unfoldable pub request_if_woken : Option ℕ × Kernel → Kernel
request_if_woken (none, k) = k
request_if_woken (some t, k) = request_context_switch k
