-- ===== src/Examples/Locks.antt =====
-- Runs of the mutex.
use nimble_rtos.Common.{◌≡◌, ◌↔◌, refl, some, arith}
use nimble_rtos.Common.Tids.{mem}
use nimble_rtos.Kernel.{Kernel, ok}
use nimble_rtos.Scheduler.{add_ready, block_current_delay, prepare_block}
use nimble_rtos.Scheduler.Invariant.{WellFormed}
use nimble_rtos.Waiters.{wait_on, insert_waiter_priority_sorted, returned}
use nimble_rtos.Waiters.Sorted.{is_sorted}
use nimble_rtos.Task.{delay_task}
use nimble_rtos.Task.Lifecycle.{delay_task-WellFormed}
use nimble_rtos.Mutex.{Mutex, lock, boost, unlock}
use nimble_rtos.Mutex.Invariant.{mutex, MutexValid, lock-MutexValid, unlock-MutexValid}
use nimble_rtos.Mutex.Scheduling.{OwnerOffReady}
use nimble_rtos.Mutex.Inversion.{Contended, InversionAfter, lock-InversionAfter}
use nimble_rtos.Mutex.Nested.{Apart, BaseEnough, unlock-OthersValid}
use nimble_rtos.Mutex.Handover.{unlock-lock, HandedOver, unlock-HandedOver}
use nimble_rtos.Examples.{all, busy, busy-WellFormed}

-- Task 1 holds the mutex with the wait list 9.
abbrev held_by_1 : Mutex
held_by_1 = mutex (some 1) 1 9

held-MutexValid : MutexValid held_by_1 busy
unfolding add_ready mem is_sorted
held-MutexValid = record {
  free = λ e. absurd cc;
  held = λ o e. (omega arith, omega arith);
  not_self = λ o e. refl;
  ordered = refl;
  inherits = λ o t e h. absurd (ground arith);
}

lock-MutexValid_example : let r = lock 3 5 held_by_1 busy in MutexValid r.1 r.2
lock-MutexValid_example = lock-MutexValid held-MutexValid 3 5 (omega arith)

-- Task 3 waits for it.
abbrev contended : Kernel
contended = (lock 3 5 held_by_1 busy).2

contended-MutexValid : MutexValid held_by_1 contended
unfolding lock
contended-MutexValid = lock-MutexValid held-MutexValid 3 5 (omega arith)

unlock-MutexValid_example : let r = unlock 1 held_by_1 contended in MutexValid r.1 r.2
unlock-MutexValid_example = unlock-MutexValid contended-MutexValid 1

unlock-HandedOver_example : HandedOver 1 9 contended 3 (unlock 1 held_by_1 contended)
unfolding lock add_ready wait_on prepare_block insert_waiter_priority_sorted boost
unlock-HandedOver_example = unlock-HandedOver contended-MutexValid 3 refl

busy-Contended : Contended all busy 3 2 1
unfolding add_ready
busy-Contended = record {
  current = refl;
  self_live = refl;
  self_runs = refl;
  medium_live = refl;
  medium_ready = refl;
  owner_live = refl;
  owner_ready = refl;
  above_owner = omega arith;
  below_self = omega arith;
}

lock-InversionAfter_example : InversionAfter busy 3 1 (lock 3 5 held_by_1 busy)
lock-InversionAfter_example =
    lock-InversionAfter busy-WellFormed busy-Contended 5 1 9 (ground arith)

-- Task 2 sleeps, and holds the mutex that task 3 asks for.
abbrev sleepy : Kernel
sleepy = delay_task 2 10 busy

sleepy-WellFormed : WellFormed all sleepy
unfolding add_ready
sleepy-WellFormed = delay_task-WellFormed busy-WellFormed 2 10 refl refl

sleepy-OwnerOffReady : OwnerOffReady all 3 (some 2) sleepy
unfolding add_ready delay_task block_current_delay
sleepy-OwnerOffReady o e = ground arith

unlock-lock_example :
    let r = lock 3 0 (mutex (some 3) 1 9) busy in
    (r.0 ≡ returned ok) × (unlock 3 r.1 r.2 ≡ (ok, mutex (some 3) 1 9, busy))
unlock-lock_example = unlock-lock 3 0 1 9 busy (omega arith) (omega arith)

-- Task 1 holds a second mutex, which nobody waits for, and gives it back first.
inner-Apart : Apart 1 8 held_by_1 contended
unfolding lock add_ready wait_on prepare_block insert_waiter_priority_sorted boost mem
inner-Apart = record { elsewhere = λ t m. absurd (ground arith); awake = refl }

unlock-OthersValid_example :
    MutexValid held_by_1 (unlock 1 (mutex (some 1) 1 8) contended).2
    ↔ BaseEnough 1 held_by_1 contended
unlock-OthersValid_example = unlock-OthersValid held_by_1 contended-MutexValid inner-Apart
