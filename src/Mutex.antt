-- ===== src/Mutex.antt =====
-- kernel/src/mutex.c: the priority-inheritance mutex. A call that blocks is two critical sections
-- with a context switch between them: `lock` up to the switch, `lock_resume` from there.
pub mod Invariant
pub mod Scheduling
pub mod Inversion
pub mod Handover
pub mod Nested
pub mod Parking
use nimble_rtos.Common.{
  ℕ, Option, none, some, Bool, true, false, ◌==◌, ltb, if◌then◌else◌, update, [],
}
use nimble_rtos.Common.Words.{add32, sub32}
use nimble_rtos.Kernel.{Status, ok, err_timeout, err_not_owner, Kernel, Tcb, no_wait}
use nimble_rtos.Scheduler.{
  set_tcb, prepare_block, wake_waiter, remove_event_link, request_context_switch,
}
use nimble_rtos.Waiters.{Outcome, returned, waits, wait_on}

-- `waiters` is the address of the head of the wait list.
pub record Mutex : Type 0 where
  pub owner : Option ℕ
  pub lock_count : ℕ
  pub waiters : ℕ

unfoldable pub mutex_init : ℕ → Kernel → Mutex × Kernel
mutex_init waiters k = (
  record { owner = none; lock_count = 0; waiters = waiters },
  record k { wait_lists = update k.wait_lists waiters [] },
)

-- The owner inherits the priority of a task that outranks it.
unfoldable pub boost : ℕ → ℕ → Kernel → Kernel
boost self owner k =
    if ltb (k.tcbs owner).priority (k.tcbs self).priority
    then set_tcb owner (record (k.tcbs owner) { priority = (k.tcbs self).priority }) k
    else k

-- The caller gets into the wait list and off the ready side.
unfoldable pub lock_wait : ℕ → ℕ → ℕ → Mutex → Kernel → Kernel
lock_wait self owner timeout_ticks mutex k =
    wait_on mutex.waiters timeout_ticks self (boost self owner k)

-- `nimble_mutex_lock` of the running task `self`, up to the context switch.
unfoldable pub lock : ℕ → ℕ → Mutex → Kernel → Outcome × Mutex × Kernel
unfolding lock_wait
lock self timeout_ticks mutex k = elim mutex.owner [
  | none ↦ (returned ok, record mutex { owner = some self; lock_count = 1 }, k)
  | some owner ↦
      if owner == self
      then (returned ok, record mutex { lock_count = add32 mutex.lock_count 1 }, k)
      else if timeout_ticks == no_wait
      then (returned err_timeout, mutex, k)
      else (waits, mutex, lock_wait self owner timeout_ticks mutex k)
]

unfoldable pub is_owner : ℕ → Mutex → Bool
is_owner t mutex = elim mutex.owner [ none ↦ false | some owner ↦ owner == t ]

-- The rest of `nimble_mutex_lock`, when the task runs again.
unfoldable pub lock_resume : ℕ → Mutex → Kernel → Status × Kernel
unfolding is_owner remove_event_link
lock_resume self mutex k =
    if is_owner self mutex then (ok, k) else (err_timeout, remove_event_link self k)

-- The end of the last unlock: the mutex goes to the first waiter, if there is one.
unfoldable pub hand_over : Mutex → Option ℕ × Kernel → Status × Mutex × Kernel
hand_over mutex (none, k) = (ok, record mutex { owner = none; lock_count = 0 }, k)
hand_over mutex (some woken, k) =
    (ok, record mutex { owner = some woken; lock_count = 1 }, request_context_switch k)

unfoldable pub restore_priority : ℕ → Kernel → Kernel
restore_priority t k = set_tcb t (record (k.tcbs t) { priority = (k.tcbs t).base_priority }) k

-- `nimble_mutex_unlock` of the running task `self`.
unfoldable pub unlock : ℕ → Mutex → Kernel → Status × Mutex × Kernel
unlock self mutex k =
    if is_owner self mutex
    then (let count = sub32 mutex.lock_count 1 in
        if ltb 0 count
        then (ok, record mutex { lock_count = count }, k)
        else hand_over mutex (wake_waiter mutex.waiters (restore_priority self k)))
    else (err_not_owner, mutex, k)
