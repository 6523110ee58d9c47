-- ===== src/Task/Lifecycle.antt =====
-- kernel/src/task.c: creation, delay, suspension and resumption, and the kernel's invariant.
use nimble_rtos.Common.{
  ℕ, ◌<◌, ◌≤◌, ◌≡◌, refl, Bool, true, false, ◌||◌, Option, some, none, List, arith, Bool-cases, inl,
  inr, ◌⊎◌, if◌then◌else◌, subst, sym, ltb, leb,
}
use nimble_rtos.Kernel.{
  Kernel, Status, ok, err_invalid_arg, suspended, is_ready, is_running, is_blocked, is_suspended,
  max_priorities, min_stack_words,
}
use nimble_rtos.Common.Words.{add32}
use nimble_rtos.Scheduler.{set_state, scheduler_remove, request_context_switch}
use nimble_rtos.Scheduler.Invariant.{WellFormed, WellFormed-ext, others-WellFormed, including}
use nimble_rtos.Scheduler.Moves.{
  scheduler_remove-WellFormed, set_tcb-WellFormed, admit-WellFormed, add_ready-WellFormed,
  retire-WellFormed,
}
use nimble_rtos.Scheduler.Waking.{including-without}
use nimble_rtos.Waiters.Blocking.{block_current_delay-WellFormed}
use nimble_rtos.Port.{Memory}
use nimble_rtos.Task.{
  create_checked, task_create, is_current, delay_task, task_suspend, task_resume, is_null,
}
use nimble_rtos.Task.Stack.{FreshStack, create-FreshStack}

-- A switch may be requested at any time.
requested :
    {live : ℕ → Bool} {k : Kernel}
    → WellFormed live k
    → (b : Bool) → WellFormed live (if b then request_context_switch k else k)
requested {k} wf true = others-WellFormed wf k.tick_count k.next_tcb true
requested wf false = wf

pub task_create-checked :
    (exit_trap t : ℕ) (name : Option (List ℕ)) (fn arg base words priority : ℕ) (m : Memory)
    (k : Kernel)
    → min_stack_words ≤ words
    → priority < max_priorities
    → task_create exit_trap (some t) name (some fn) arg (some base) words priority m k
      ≡ create_checked exit_trap t name fn arg base words priority m k
unfolding task_create
task_create-checked exit_trap t name fn arg base words priority m k enough small =
    let e : ltb words min_stack_words ≡ false = ground arith in
    let f : leb max_priorities priority ≡ false = ground arith in rw (e, f)

create_checked-ok :
    (exit_trap t : ℕ) (name : Option (List ℕ)) (fn arg base words priority : ℕ) (m : Memory)
    (k : Kernel)
    → (create_checked exit_trap t name fn arg base words priority m k).0 ≡ ok
unfolding create_checked
create_checked-ok exit_trap t name fn arg base words priority m k = refl

-- A null TCB, function or stack, a stack of fewer than 64 words, or a priority of 32 or more is
-- refused with INVALID_ARG, and neither the memory nor the kernel changes.
pub task_create-rejects :
    (exit_trap : ℕ) (tcb : Option ℕ) (name : Option (List ℕ)) (fn : Option ℕ) (arg : ℕ)
    (base : Option ℕ) (words priority : ℕ) (m : Memory) (k : Kernel)
    → ((tcb ≡ none)
        ⊎ (fn ≡ none)
        ⊎ (base ≡ none)
        ⊎ (words < min_stack_words)
        ⊎ (max_priorities ≤ priority))
    → task_create exit_trap tcb name fn arg base words priority m k ≡ (err_invalid_arg, m, k)
unfolding task_create
task_create-rejects exit_trap tcb name fn arg base words priority m k bad =
    elim (Bool-cases (is_null tcb || is_null fn || is_null base)) [
      | inl null ↦ rw null
      | inr given ↦ elim (Bool-cases (ltb words min_stack_words)) [
        | inl short ↦ rw given (rw short)
        | inr enough ↦ elim (Bool-cases (leb max_priorities priority)) [
          | inl big ↦ rw given (rw enough (rw big))
          | inr small ↦ absurd (ground arith)
        ]
      ]
    ]

module _ {live : ℕ → Bool} {k : Kernel} (wf : WellFormed live k) where
  pub create_checked-WellFormed :
      (exit_trap t : ℕ) (name : Option (List ℕ)) (fn arg base words priority : ℕ) (m : Memory)
      → live t ≡ false
      → priority < max_priorities
      → WellFormed
          (including t live)
          (create_checked exit_trap t name fn arg base words priority m k).2
  unfolding create_checked
  create_checked-WellFormed exit_trap t name fn arg base words priority m out small =
      add_ready-WellFormed (set_tcb-WellFormed wf t _ out) t out (ground arith)

  -- `nimble_task_resume` of a task in use keeps the kernel well formed, whatever the state of the
  -- task.
  pub task_resume-WellFormed : (t : ℕ) → live t ≡ true → WellFormed live (task_resume t k)
  unfolding task_resume
  task_resume-WellFormed t l = elim (Bool-cases (is_suspended (k.tcbs t).state)) [
    | inl was ↦ rw was (
        WellFormed-ext (λ s. including-without t s live l)
          (add_ready-WellFormed (retire-WellFormed wf t (ground arith) (ground arith)) t
            (ground arith) (wf.priority t l)))
    | inr other ↦ rw other wf
  ]

  -- A task that is off every list is marked as suspended.
  suspend_ready :
      (t : ℕ)
      → live t ≡ true
      → is_ready (k.tcbs t).state ≡ true
      → WellFormed live (set_state t suspended (scheduler_remove t k))
  unfolding scheduler_remove
  suspend_ready t l r =
      WellFormed-ext (λ s. including-without t s live l)
        (admit-WellFormed
          (set_tcb-WellFormed (scheduler_remove-WellFormed wf t l (ground arith)) t
            (record ((scheduler_remove t k).tcbs t) { state = suspended }) (ground arith))
          t (ground arith) (ground (arith, wf.priority t)) (ground arith) (inl (ground arith)))

  suspend_running :
      (t : ℕ)
      → live t ≡ true
      → is_running (k.tcbs t).state ≡ true
      → WellFormed live (set_state t suspended k)
  suspend_running t l r =
      WellFormed-ext (λ s. including-without t s live l)
        (admit-WellFormed
          (set_tcb-WellFormed (retire-WellFormed wf t (ground arith) (ground arith)) t
            (record (k.tcbs t) { state = suspended }) (ground arith))
          t (ground arith) (ground (arith, wf.priority t)) (ground arith) (inl (ground arith)))

  -- `nimble_task_suspend` of a task in use keeps the kernel well formed, whatever the state of the
  -- task.
  pub task_suspend-WellFormed : (t : ℕ) → live t ≡ true → WellFormed live (task_suspend t k)
  unfolding task_suspend
  task_suspend-WellFormed t l = elim (Bool-cases (is_ready (k.tcbs t).state)) [
    | inl r ↦ rw r (requested (suspend_ready t l r) (is_current t k))
    | inr nr ↦ elim (Bool-cases (is_running (k.tcbs t).state)) [
      | inl r ↦ rw nr (rw r (requested (suspend_running t l r) (is_current t k)))
      | inr off ↦ rw nr (rw off wf)
    ]
  ]

  -- A delay of a task in use that is not blocked keeps the kernel well formed.
  pub delay_task-WellFormed :
      (self ticks : ℕ)
      → live self ≡ true
      → is_blocked (k.tcbs self).state ≡ false
      → WellFormed live (delay_task self ticks k)
  unfolding delay_task
  delay_task-WellFormed self ticks l nb =
      requested (block_current_delay-WellFormed wf self l nb (add32 k.tick_count ticks)) true

  -- With valid arguments and a TCB that is not in use, `nimble_task_create` returns OK; the stack
  -- pointer of the task lies 16 words below the top of its stack, those words are the frame of the
  -- first switch, nothing outside the stack has changed and the high-water mark is the size of the
  -- stack less 16; and the kernel is well formed with the new task in use.
  pub task_create-FreshStack :
      (exit_trap t : ℕ) (name : Option (List ℕ)) (fn arg base words priority : ℕ) (m : Memory)
      → live t ≡ false
      → min_stack_words ≤ words
      → priority < max_priorities
      → let r = task_create exit_trap (some t) name (some fn) arg (some base) words priority m k in
        (r.0 ≡ ok)
        × FreshStack exit_trap t fn arg base words m r
        × WellFormed (including t live) r.2
  task_create-FreshStack exit_trap t name fn arg base words priority m out enough small =
      subst
        (λ (r : Status × Memory × Kernel).
          (r.0 ≡ ok)
          × FreshStack exit_trap t fn arg base words m r
          × WellFormed (including t live) r.2)
        (sym (task_create-checked exit_trap t name fn arg base words priority m k enough small))
        (
          create_checked-ok exit_trap t name fn arg base words priority m k,
          create-FreshStack exit_trap t name fn arg base words priority m k enough,
          create_checked-WellFormed exit_trap t name fn arg base words priority m out small,
        )
