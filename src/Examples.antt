-- ===== src/Examples.antt =====
-- Small kernels that the examples below run the code on.
pub mod Running
pub mod Locks
pub mod Messages
pub mod Tasks
pub mod Timers
pub mod Supply
pub mod Turns
pub mod Pointers
pub mod Sharing
pub mod Hardware
use nimble_rtos.Common.{
  ℕ, ◌<◌, ◌≡◌, refl, Bool, true, false, Option, none, some, List, [], ◌∷◌, arith, inl, inr, update,
  not, is_nil,
}
use nimble_rtos.Common.Tids.{mem, distinct}
use nimble_rtos.Common.Bits.{test_bit, test_bit-zero}
use nimble_rtos.Kernel.{Kernel, Tcb, TaskState, ready, running, deleted, ok, max_priorities}
use nimble_rtos.Scheduler.{set_tcb, add_ready}
use nimble_rtos.Scheduler.Invariant.{WellFormed, including}
use nimble_rtos.Scheduler.Moves.{add_ready-WellFormed, set_tcb-WellFormed, admit-WellFormed}
use nimble_rtos.Scheduler.Switching.{CurrentLive}

abbrev pub task : ℕ → TaskState → Tcb
task p s = record {
  sp = 0;
  priority = p;
  base_priority = p;
  state = s;
  stack_base = 0;
  stack_words = 64;
  wake_tick = 0;
  last_wait_result = ok;
  blocked_on_mutex = none;
  name = [];
}

abbrev pub nobody : ℕ → Bool
nobody t = false

-- No task yet; task 3 is to be the first.
abbrev pub empty_kernel : Kernel
empty_kernel = record {
  tcbs = λ t. task 0 deleted;
  ready_lists = λ p. [];
  delayed_list = [];
  wait_lists = λ w. [];
  ready_bitmap = 0;
  tick_count = 0;
  current_tcb = some 3;
  next_tcb = some 3;
  pendsv_pending = false;
}

pub empty-WellFormed : WellFormed nobody empty_kernel
unfolding mem distinct
empty-WellFormed = record {
  in_ready = λ p t. refl;
  bitmap = λ p h. test_bit-zero p;
  priority = λ t h. absurd (ground arith);
  in_delayed = λ t h. absurd (ground arith);
  in_wait = λ w t h. absurd (ground arith);
  one_wait = λ v w t h g. absurd (ground arith);
  runs = λ t h. absurd (ground arith);
  distinct_ready = λ p. refl;
  distinct_delayed = refl;
  distinct_wait = λ w. refl;
}

-- Task 3 of priority 7 runs.
abbrev pub alone : ℕ → Bool
alone = including 3 nobody

abbrev pub lone_kernel : Kernel
lone_kernel = set_tcb 3 (task 7 running) empty_kernel

pub lone-WellFormed : WellFormed alone lone_kernel
lone-WellFormed =
    admit-WellFormed (set_tcb-WellFormed empty-WellFormed 3 (task 7 running) refl) 3 refl
      (omega arith) refl (inr refl)

-- Besides it, task 2 of priority 5 and task 1 of priority 1 are ready.
abbrev pub all : ℕ → Bool
all = including 1 (including 2 alone)

abbrev pub two_kernel : Kernel
two_kernel = add_ready 2 (set_tcb 2 (task 5 ready) lone_kernel)

abbrev pub busy : Kernel
busy = add_ready 1 (set_tcb 1 (task 1 ready) two_kernel)

pub two-WellFormed : WellFormed (including 2 alone) two_kernel
two-WellFormed =
    add_ready-WellFormed (set_tcb-WellFormed lone-WellFormed 2 (task 5 ready) refl) 2 refl
      (omega arith)

pub busy-WellFormed : WellFormed all busy
busy-WellFormed =
    add_ready-WellFormed (set_tcb-WellFormed two-WellFormed 1 (task 1 ready) refl) 1 refl
      (omega arith)

pub busy-CurrentLive : CurrentLive all busy
unfolding add_ready
busy-CurrentLive c h = ground arith
