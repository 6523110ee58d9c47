-- ===== src/Examples/Tasks.antt =====
-- Runs of the calls of a task, and of the waiters and delays under them.
use nimble_rtos.Common.{
  ℕ, ◌≡◌, refl, none, some, [], ◌∷◌, ◌++◌, arith, inl, inr, ◌==◌, if◌then◌else◌,
}
use nimble_rtos.Kernel.{ok, err_invalid_arg}
use nimble_rtos.Scheduler.Invariant.{WellFormed, including}
use nimble_rtos.Waiters.{insert_sorted}
use nimble_rtos.Waiters.Sorted.{is_sorted, at_priority, at_priority-insert_sorted}
use nimble_rtos.Port.{Memory}
use nimble_rtos.Task.{task_create, task_suspend}
use nimble_rtos.Task.Stack.{FreshStack}
use nimble_rtos.Task.Lifecycle.{
  task_create-rejects, task_create-FreshStack, task_suspend-WellFormed,
}
use nimble_rtos.Examples.{all, busy, busy-WellFormed}

abbrev zeros : Memory
zeros a = 0

task_create-rejects_example :
    task_create 8 (some 4) none (some 16) 0 (some 100) 63 9 zeros busy
    ≡ (err_invalid_arg, zeros, busy)
task_create-rejects_example =
    task_create-rejects 8 (some 4) none (some 16) 0 (some 100) 63 9 zeros busy
      (inr (inr (inr (inl (omega arith)))))

task_create-FreshStack_example :
    let r = task_create 8 (some 4) none (some 16) 0 (some 100) 64 9 zeros busy in
    (r.0 ≡ ok) × FreshStack 8 4 16 0 100 64 zeros r × WellFormed (including 4 all) r.2
task_create-FreshStack_example =
    task_create-FreshStack busy-WellFormed 8 4 none 16 0 100 64 9 zeros refl (omega arith)
      (omega arith)

suspended_kernel-WellFormed : WellFormed all (task_suspend 2 busy)
suspended_kernel-WellFormed = task_suspend-WellFormed busy-WellFormed 2 refl

abbrev by_number : ℕ → ℕ
by_number t = if t == 8 then 5 else t

at_priority-insert_sorted_example :
    at_priority by_number 5 (insert_sorted by_number 5 (9 ∷ 8 ∷ 2 ∷ [])) ≡ (
      if by_number 5 == 5
      then at_priority by_number 5 (9 ∷ 8 ∷ 2 ∷ []) ++ 5 ∷ []
      else at_priority by_number 5 (9 ∷ 8 ∷ 2 ∷ []))
unfolding is_sorted
at_priority-insert_sorted_example = at_priority-insert_sorted by_number 5 5 (9 ∷ 8 ∷ 2 ∷ []) refl
