-- ===== src/System.antt =====
-- The kernel as a whole: the calls of the tasks, the interrupts and the context switch, in any order.
-- Each step is one critical section of kernel/src, or one interrupt.
pub mod Frames
pub mod Boot
pub mod Calls
pub mod Reach
use nimble_rtos.Common.{ℕ, ◌<◌, ◌≤◌, ◌≡◌, ◌≢◌, Bool, true, false, Option, none, some, List, []}
use nimble_rtos.Kernel.{Kernel, Tcb, deleted, ok, running, max_priorities, min_stack_words}
use nimble_rtos.Scheduler.{tick, pendsv, request_context_switch}
use nimble_rtos.Scheduler.Invariant.{including}
use nimble_rtos.Port.{Memory}
use nimble_rtos.Task.{task_create, delay_task, task_suspend, task_resume, task_yield}
use nimble_rtos.Mutex.{Mutex, lock, lock_resume, unlock}
use nimble_rtos.Mutex.Scheduling.{OwnerOffReady}
use nimble_rtos.Semaphore.{Semaphore, take, take_resume, give, give_from_isr}
use nimble_rtos.Queue.{Queue, send, send_resume, receive, receive_resume, send_from_isr}

-- `self` runs.
abbrev pub Runs : ℕ → Kernel → Type 0
Runs self k = (k.current_tcb ≡ some self) × ((k.tcbs self).state ≡ running)

-- The steps of a kernel, with the TCBs that are in use before and after. `idle` is the idle task,
-- which makes no call that blocks it and is not suspended. The objects are any.
pub data Step (idle : ℕ) : (ℕ → Bool) → Kernel → (ℕ → Bool) → Kernel → Type 0 where
  creates :
      (live : ℕ → Bool) (k : Kernel) (exit_trap t : ℕ) (name : Option (List ℕ))
      (fn arg base words priority : ℕ) (m : Memory)
      → live t ≡ false
      → min_stack_words ≤ words
      → priority < max_priorities
      → Step idle live k
          (including t live)
          (task_create exit_trap (some t) name (some fn) arg (some base) words priority m k).2
  ticks : (live : ℕ → Bool) (k : Kernel) → Step idle live k live (tick k)
  switches : (live : ℕ → Bool) (k k' : Kernel) → pendsv k ≡ some k' → Step idle live k live k'
  yields : (live : ℕ → Bool) (k : Kernel) → Step idle live k live (task_yield k)
  delays :
      (live : ℕ → Bool) (k : Kernel) (self n : ℕ)
      → Runs self k
      → self ≢ idle
      → Step idle live k live (delay_task self n k)
  suspends :
      (live : ℕ → Bool) (k : Kernel) (t : ℕ)
      → live t ≡ true
      → t ≢ idle
      → Step idle live k live (task_suspend t k)
  resumes :
      (live : ℕ → Bool) (k : Kernel) (t : ℕ)
      → live t ≡ true
      → Step idle live k live (task_resume t k)
  locks :
      (live : ℕ → Bool) (k : Kernel) (self n : ℕ) (m : Mutex)
      → Runs self k
      → self ≢ idle
      → OwnerOffReady live self m.owner k
      → Step idle live k live (lock self n m k).2
  locks_on :
      (live : ℕ → Bool) (k : Kernel) (self : ℕ) (m : Mutex)
      → Runs self k
      → Step idle live k live (lock_resume self m k).1
  unlocks :
      (live : ℕ → Bool) (k : Kernel) (self : ℕ) (m : Mutex)
      → Runs self k
      → Step idle live k live (unlock self m k).2
  takes :
      (live : ℕ → Bool) (k : Kernel) (self n : ℕ) (s : Semaphore)
      → Runs self k
      → self ≢ idle
      → Step idle live k live (take self n s k).2
  takes_on :
      (live : ℕ → Bool) (k : Kernel) (self : ℕ)
      → Runs self k
      → Step idle live k live (take_resume self k).1
  gives : (live : ℕ → Bool) (k : Kernel) (s : Semaphore) → Step idle live k live (give s k).2
  gives_from_isr :
      (live : ℕ → Bool) (k : Kernel) (s : Semaphore) → Step idle live k live (give_from_isr s k).3
  sends :
      (live : ℕ → Bool) (k : Kernel) (self n : ℕ) (item : List ℕ) (q : Queue)
      → Runs self k
      → self ≢ idle
      → Step idle live k live (send self n item q k).2
  sends_on :
      (live : ℕ → Bool) (k : Kernel) (self : ℕ) (item : List ℕ) (q : Queue)
      → Runs self k
      → Step idle live k live (send_resume self item q k).2
  receives :
      (live : ℕ → Bool) (k : Kernel) (self n : ℕ) (q : Queue)
      → Runs self k
      → self ≢ idle
      → Step idle live k live (receive self n q k).3
  receives_on :
      (live : ℕ → Bool) (k : Kernel) (self : ℕ) (q : Queue)
      → Runs self k
      → Step idle live k live (receive_resume self q k).3
  sends_from_isr :
      (live : ℕ → Bool) (k : Kernel) (item : List ℕ) (q : Queue)
      → Step idle live k live (send_from_isr item q k).3

-- Any number of steps.
pub data Steps (idle : ℕ) (live : ℕ → Bool) (k : Kernel) : (ℕ → Bool) → Kernel → Type 0 where
  none_yet : Steps idle live k live k
  then_one :
      {live' live'' : ℕ → Bool} {k' k'' : Kernel}
      → Steps idle live k live' k'
      → Step idle live' k' live'' k''
      → Steps idle live k live'' k''
