-- ===== src/Task.antt =====
-- kernel/src/task.c: creation of a task, delay, suspension, resumption, stack high-water mark.
-- Critical sections need no state of their own: each function below is one, run without interruption.
pub mod Stack
pub mod Lifecycle
pub mod Delays
use nimble_rtos.Common.{
  ℕ, zero, suc, ◌+◌, ◌-◌, Bool, true, false, ◌&&◌, ◌||◌, Option, none, some, List, [], ◌∷◌, ◌++◌,
  ◌==◌, ltb, leb, if◌then◌else◌, update, take, replicate,
}
use nimble_rtos.Common.Words.{add32}
use nimble_rtos.Kernel.{
  Status, ok, err_invalid_arg, TaskState, ready, running, suspended, is_ready, is_running,
  is_suspended, Tcb, Kernel, min_stack_words, max_priorities, max_task_name_len,
}
use nimble_rtos.Scheduler.{
  set_tcb, set_state, add_ready, scheduler_remove, block_current_delay, request_context_switch,
}
use nimble_rtos.Port.{Memory, init_task_stack}

abbrev pub stack_canary : ℕ
stack_canary = 0xa5a5a5a5

-- `stack_base[i] = NIMBLE_STACK_CANARY` for the first `n` words.
unfoldable pub fill_canary : ℕ → ℕ → Memory → Memory
fill_canary zero base m = m
fill_canary (suc n) base m = update (fill_canary n base m) (base + n) stack_canary

-- The loop over the name: a list of bytes, with the terminator where it ends.
unfoldable pub name_scan : List ℕ → ℕ → ℕ
name_scan [] len = len
name_scan (c ∷ cs) len =
    let rest = name_scan cs (len + 1) in
    if c == 0 then len else if ltb len (max_task_name_len - 1) then rest else len

-- The array `name` of the TCB: `memset`, `memcpy` and the terminator.
unfoldable pub copy_name : Option (List ℕ) → List ℕ
unfolding name_scan
copy_name none = replicate max_task_name_len 0
copy_name (some name) =
    let len = name_scan name 0 in take len name ++ replicate (max_task_name_len - len) 0

unfoldable pub is_null : Option ℕ → Bool
is_null none = true
is_null (some p) = false

abbrev pub address : Option ℕ → ℕ
address none = 0
address (some p) = p

-- The TCB that `nimble_task_create` writes. `memset` makes `last_wait_result` NIMBLE_OK.
unfoldable pub new_tcb : ℕ → Option (List ℕ) → ℕ → ℕ → ℕ → Tcb
unfolding copy_name
new_tcb sp name stack_base stack_words priority = record {
  sp = sp;
  priority = priority;
  base_priority = priority;
  state = ready;
  stack_base = stack_base;
  stack_words = stack_words;
  wake_tick = 0;
  last_wait_result = ok;
  blocked_on_mutex = none;
  name = copy_name name;
}

-- The part after the checks of the arguments.
unfoldable pub create_checked :
    ℕ → ℕ → Option (List ℕ) → ℕ → ℕ → ℕ → ℕ → ℕ → Memory → Kernel → Status × Memory × Kernel
unfolding fill_canary init_task_stack new_tcb add_ready
create_checked exit_trap t name fn arg stack_base stack_words priority m k =
    let m' = fill_canary stack_words stack_base m in
    let (sp, m'') = init_task_stack exit_trap (stack_base + stack_words) fn arg m' in
    (ok, m'', add_ready t (set_tcb t (new_tcb sp name stack_base stack_words priority) k))

-- `none` is a null pointer.
unfoldable pub task_create :
    ℕ
    → Option ℕ
    → Option (List ℕ)
    → Option ℕ
    → ℕ
    → Option ℕ
    → ℕ
    → ℕ
    → Memory
    → Kernel
    → Status × Memory × Kernel
unfolding is_null create_checked
task_create exit_trap tcb name fn arg stack_base stack_words priority m k =
    if is_null tcb || is_null fn || is_null stack_base
    then (err_invalid_arg, m, k)
    else if ltb stack_words min_stack_words
    then (err_invalid_arg, m, k)
    else if leb max_priorities priority
    then (err_invalid_arg, m, k)
    else create_checked exit_trap (address tcb) name (address fn) arg (address stack_base)
        stack_words priority m k

-- `nimble_scheduler_init` of scheduler.c: `idle`, `fn` and `stack` are the addresses of `idle_tcb`,
-- `idle_task_fn` and `idle_stack`.
unfoldable pub scheduler_init : ℕ → ℕ → ℕ → ℕ → Memory → Kernel → Memory × Kernel
unfolding task_create
scheduler_init exit_trap idle fn stack m k =
    let k' = record k {
      ready_lists = λ p. [];
      delayed_list = [];
      ready_bitmap = 0;
      tick_count = 0;
      current_tcb = none;
      next_tcb = none;
    } in
    let r =
      task_create exit_trap (some idle) (some (105 ∷ 100 ∷ 108 ∷ 101 ∷ [])) (some fn) 0 (some stack)
        128 0 m k' in
    (r.1, r.2)

unfoldable pub task_yield : Kernel → Kernel
task_yield k = request_context_switch k

-- For the calling task `self`.
unfoldable pub delay_task : ℕ → ℕ → Kernel → Kernel
unfolding block_current_delay
delay_task self ticks k =
    request_context_switch (block_current_delay self (add32 k.tick_count ticks) k)

-- With no current task the code dereferences NULL: `none`.
unfoldable pub task_delay : ℕ → Kernel → Option Kernel
unfolding delay_task
task_delay ticks k =
    if ticks == 0
    then some k
    else elim k.current_tcb [ none ↦ none | some self ↦ some (delay_task self ticks k) ]

-- `tcb == nimble_current_tcb`
unfoldable pub is_current : ℕ → Kernel → Bool
is_current t k = elim k.current_tcb [ none ↦ false | some c ↦ c == t ]

unfoldable pub task_suspend : ℕ → Kernel → Kernel
unfolding is_current scheduler_remove
task_suspend t k =
    if is_ready (k.tcbs t).state || is_running (k.tcbs t).state
    then (let k' = if is_ready (k.tcbs t).state then scheduler_remove t k else k in
        let k'' = set_state t suspended k' in
        if is_current t k then request_context_switch k'' else k'')
    else k

unfoldable pub task_resume : ℕ → Kernel → Kernel
unfolding add_ready
task_resume t k = if is_suspended (k.tcbs t).state then add_ready t k else k

unfoldable pub task_self : Kernel → Option ℕ
task_self k = k.current_tcb

-- The words from `base` up that still hold the canary, of `n` words.
unfoldable pub untouched : ℕ → ℕ → Memory → ℕ
untouched zero base m = 0
untouched (suc n) base m = if m base == stack_canary then suc (untouched n (base + 1) m) else 0

unfoldable pub get_stack_high_water_mark : ℕ → Memory → Kernel → ℕ
unfolding untouched
get_stack_high_water_mark t m k = untouched (k.tcbs t).stack_words (k.tcbs t).stack_base m
