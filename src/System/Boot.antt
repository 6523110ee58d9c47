-- ===== src/System/Boot.antt =====
-- kernel/src: the kernel from `nimble_scheduler_init` on.
use nimble_rtos.Common.{ℕ, ◌≡◌, refl, Bool, false, none, some, [], ◌∷◌, arith}
use nimble_rtos.Common.Tids.{mem, distinct}
use nimble_rtos.Common.Bits.{test_bit-zero}
use nimble_rtos.Kernel.{Kernel}
use nimble_rtos.Scheduler.{add_ready}
use nimble_rtos.Scheduler.Invariant.{WellFormed, including}
use nimble_rtos.Scheduler.Switching.{Switched}
use nimble_rtos.Port.{Memory}
use nimble_rtos.Task.{task_create, create_checked, scheduler_init}
use nimble_rtos.Task.Lifecycle.{create_checked-WellFormed}
use nimble_rtos.System.{Steps}
use nimble_rtos.System.Reach.{Sound, Steps-Sound, Steps-Switched}

abbrev pub no_task : ℕ → Bool
no_task t = false

abbrev cleared : Kernel → Kernel
cleared k = record k {
  ready_lists = λ p. [];
  delayed_list = [];
  ready_bitmap = 0;
  tick_count = 0;
  current_tcb = none;
  next_tcb = none;
}

module _ (k : Kernel) (no_waiters : (w : ℕ) → k.wait_lists w ≡ []) where
  cleared-WellFormed : WellFormed no_task (cleared k)
  unfolding mem distinct
  cleared-WellFormed = record {
    in_ready = λ p t. refl;
    bitmap = λ p h. test_bit-zero p;
    priority = λ t h. absurd (ground arith);
    in_delayed = λ t h. absurd (ground arith);
    in_wait = λ w t h. absurd (ground (arith, no_waiters w));
    one_wait = λ v w t h g. absurd (ground (arith, no_waiters v));
    runs = λ t h. absurd (ground arith);
    distinct_ready = λ p. refl;
    distinct_delayed = refl;
    distinct_wait = λ w. ground (arith, no_waiters w);
  }

  pub scheduler_init-Sound :
      (exit_trap idle fn stack : ℕ) (m : Memory)
      → Sound idle (including idle no_task) (scheduler_init exit_trap idle fn stack m k).1
  unfolding scheduler_init task_create create_checked add_ready
  scheduler_init-Sound exit_trap idle fn stack m = record {
    well_formed =
        create_checked-WellFormed (cleared-WellFormed) exit_trap idle
          (some (105 ∷ 100 ∷ 108 ∷ 101 ∷ [])) fn 0 stack 128 0 m refl (omega arith);
    current_live = λ c h. absurd (ground arith);
    bases = λ t l. ground arith;
    idle_live = ground arith;
    idle_runs = ground arith;
  }

  -- From `nimble_scheduler_init` on a kernel without waiters, after any sequence of task
  -- creations, calls, interrupts and context switches in which the idle task does not block and is
  -- not suspended, and in which no task asks for a mutex whose owner is ready and of lower
  -- priority: the kernel is well formed, and PendSV finds a task, which was ready or running and
  -- which no ready or running task outranks.
  pub boot-Switched :
      (exit_trap idle fn stack : ℕ) (m : Memory) {live : ℕ → Bool} {k' : Kernel}
      → Steps idle (including idle no_task) (scheduler_init exit_trap idle fn stack m k).1 live k'
      → WellFormed live k' × ((t : ℕ) × (k'' : Kernel) × Switched live k' t k'')
  boot-Switched exit_trap idle fn stack m run =
      let start = scheduler_init-Sound exit_trap idle fn stack m in
      ((Steps-Sound start run).well_formed, Steps-Switched start run)
