-- ===== src/Timer/History.antt =====
-- kernel/src/timer.c: what may happen to the timers, call by call, tick by tick, and round by round of the
-- service task.
pub mod Kept
pub mod Rounds
pub mod Ticking
pub mod Sleeping
pub mod Waiting
pub mod Steps
pub mod InOrder
use nimble_rtos.Common.{ℕ, ◌+◌, ◌^◌, ◌<◌, ◌≡◌, Bool, true, false, Option, some, List, head?}
use nimble_rtos.Common.Tids.{mem}
use nimble_rtos.Common.Words.{sub32}
use nimble_rtos.Kernel.{Kernel}
use nimble_rtos.Semaphore.{Semaphore}
use nimble_rtos.Scheduler.{tick}
use nimble_rtos.Timer.{
  Service, expiry_of, timer_init, timer_start, timer_stop, timer_reset, fire, after, service_take,
}

-- A quarter of the range of the tick counter.
abbrev pub quarter : ℕ
quarter = 2 ^ 30

-- The first timer, if it is due, is late by less than a quarter of the range, and still is one tick on.
abbrev pub Punctual : Service → Kernel → Type 0
Punctual s k =
    (t : ℕ)
    → head? s.active_timers ≡ some t
    → after (expiry_of s t) k.tick_count ≡ false
    → sub32 k.tick_count (expiry_of s t) + 1 < quarter

-- `self`, the service task, is in the wait list of its semaphore.
abbrev pub asleep : ℕ → Service → Kernel → Bool
asleep self s k = mem self (k.wait_lists s.timer_wake_sem.waiters)

-- What the rest of the kernel may do between the steps of the timers: anything that does not count ticks,
-- puts no task into the wait list of the service task, and leaves that task, while it sleeps, its timeout.
pub record Elsewhere (self : ℕ) (s : Service) (k : Kernel) (sem : Semaphore) (k' : Kernel)
    : Type 0 where
  pub same_count : k'.tick_count ≡ k.tick_count
  pub same_list : sem.waiters ≡ s.timer_wake_sem.waiters
  pub no_other :
      (x : ℕ)
      → mem x (k'.wait_lists s.timer_wake_sem.waiters) ≡ true
      → mem x (k.wait_lists s.timer_wake_sem.waiters) ≡ true
  pub same_wake :
      asleep self s k' ≡ true
      → ((k'.tcbs self).wake_tick ≡ (k.tcbs self).wake_tick)
        × (mem self k.delayed_list ≡ true → mem self k'.delayed_list ≡ true)

-- A start is one step with the give behind it, and the computation of a wait is one with the take. All
-- else that runs in a critical section is a step of its own. The rounds and the waits are those of the service
-- task, which is not asleep then.
pub data TimerStep (self : ℕ) : Service → Kernel → Service → Kernel → Type 0 where
  inits :
      (s : Service) (k : Kernel) (t : ℕ) (name : Option (List ℕ)) (period : ℕ) (periodic : Bool)
      (callback : Option ℕ) (arg : ℕ)
      → (s.timers t).is_active ≡ false
      → period < quarter
      → TimerStep self s k (timer_init t name period periodic callback arg s) k
  starts :
      (s : Service) (k : Kernel) (t : ℕ)
      → TimerStep self s k (timer_start t s k).1 (timer_start t s k).2
  stops : (s : Service) (k : Kernel) (t : ℕ) → TimerStep self s k (timer_stop t s).1 k
  resets :
      (s : Service) (k : Kernel) (t period : ℕ)
      → period < quarter
      → TimerStep self s k (timer_reset t period s k).1 (timer_reset t period s k).2
  sleeps :
      (s : Service) (k : Kernel)
      → asleep self s k ≡ false
      → TimerStep self s k (service_take self s k).1 (service_take self s k).2
  rounds :
      (s : Service) (k : Kernel) (call : Option ℕ × ℕ) (s' : Service)
      → asleep self s k ≡ false
      → fire k.tick_count s ≡ some (call, s')
      → TimerStep self s k s' k
  ticks : (s : Service) (k : Kernel) → Punctual s k → TimerStep self s k s (tick k)
  elsewhere :
      (s : Service) (k : Kernel) (sem : Semaphore) (k' : Kernel)
      → Elsewhere self s k sem k'
      → TimerStep self s k (record s { timer_wake_sem = sem }) k'

pub data History (self : ℕ) (s : Service) (k : Kernel) : Service → Kernel → Type 0 where
  nothing_yet : History self s k s k
  then_step :
      {s' s'' : Service} {k' k'' : Kernel}
      → History self s k s' k'
      → TimerStep self s' k' s'' k''
      → History self s k s'' k''
