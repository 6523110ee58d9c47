-- ===== src/Examples/Timers.antt =====
-- Runs of the software timers.
use nimble_rtos.Common.{
  ℕ, ◌≡◌, refl, Bool, true, false, none, some, [], ◌∷◌, arith, update, suc, ◌*◌,
}
use nimble_rtos.Common.Tids.{mem, distinct, remove}
use nimble_rtos.Common.Words.{add32, sub32, not_before}
use nimble_rtos.Timer.{
  Timer, Service, start_timer, fire_all, timer_init, timer_start, rearm, service_take, fire,
  fire_head, service_wait, rearm_periodic, next_expiry, insert_sorted_by_expiry, insert_by_expiry,
}
use nimble_rtos.Timer.Members.{ServiceValid}
use nimble_rtos.Timer.Firing.{HasPeriods, Ended, fire_all-Ended}
use nimble_rtos.Timer.Zero.{ZeroPeriod, fire_all-ZeroPeriod}
use nimble_rtos.Timer.History.{
  History, nothing_yet, then_step, inits, starts, sleeps, ticks, rounds, asleep,
}
use nimble_rtos.Timer.History.InOrder.{Fresh, InOrder, History-InOrder}
use nimble_rtos.Examples.{empty_kernel}
use nimble_rtos.Kernel.{Kernel, Status}
use nimble_rtos.Scheduler.{tick, scan_delayed, wake_waiter, wake, expire, prepare_block}
use nimble_rtos.Waiters.{Outcome, wait_on, insert_sorted, insert_waiter_priority_sorted}
use nimble_rtos.Semaphore.{give, given, count_up}
use nimble_rtos.Semaphore

abbrev pub timer : ℕ → ℕ → Bool → Bool → Timer
timer period expiry periodic active = record {
  period_ticks = period;
  expiry_tick = expiry;
  is_periodic = periodic;
  is_active = active;
  callback = some 64;
  arg = 0;
  name = [];
}

-- Timer 1 is periodic and due at 100, timer 2 due once at 105; timer 3 is not active.
abbrev two_timers : Service
two_timers = record {
  timers =
      update (update (λ t. timer 7 0 false false) 2 (timer 30 105 false true)) 1
        (timer 10 100 true true);
  active_timers = 1 ∷ 2 ∷ [];
  timer_wake_sem = record { count = 0; max_count = 1; waiters = 41 };
}

two_timers-ServiceValid : ServiceValid two_timers
unfolding mem distinct
two_timers-ServiceValid = record { listed = λ t. ground arith; once = refl }

two_timers-HasPeriods : HasPeriods two_timers
two_timers-HasPeriods t h = (ground arith, ground arith)

fire_all-Ended_example : Ended (suc (2 * 2)) 106 two_timers
fire_all-Ended_example = fire_all-Ended two_timers-ServiceValid two_timers-HasPeriods (omega arith)

abbrev no_timers : Service
no_timers = record {
  timers = λ t. timer 0 0 false false;
  active_timers = [];
  timer_wake_sem = record { count = 0; max_count = 1; waiters = 41 };
}

no_timers-Fresh : Fresh no_timers empty_kernel
no_timers-Fresh = record {
  nothing_linked = refl;
  none_active = λ t. refl;
  short = λ t. ground arith;
  nobody_waits = refl;
}

-- Two timers of the periods 2 and 3, the first of them periodic, both started at tick 0.
abbrev both_set : Service
both_set = timer_init 2 none 3 false (some 65) 0 (timer_init 1 none 2 true (some 64) 0 no_timers)

abbrev one_on : Status × Service × Kernel
one_on = timer_start 2 both_set empty_kernel

abbrev both_on : Status × Service × Kernel
both_on = timer_start 1 one_on.1 one_on.2

-- The service task 3 takes the unit that the starts gave, waits, sleeps for two ticks, runs a round and
-- waits again, for timer 2.
abbrev told : Outcome × Service × Kernel
told = service_take 3 both_on.1 both_on.2

abbrev sleeping : Outcome × Service × Kernel
sleeping = service_take 3 told.1 told.2

abbrev woken : Kernel
woken = tick (tick sleeping.2)

abbrev fired_once : Service
fired_once = rearm woken.tick_count 1 sleeping.1

abbrev sleeping_again : Outcome × Service × Kernel
sleeping_again = service_take 3 fired_once woken

started : History 3 no_timers empty_kernel both_on.1 both_on.2
unfolding timer_init
started =
    then_step
      (then_step
        (then_step (then_step nothing_yet (inits _ _ 1 none 2 true (some 64) 0 refl (omega arith)))
          (inits _ _ 2 none 3 false (some 65) 0 refl (omega arith)))
        (starts _ _ 2))
      (starts _ _ 1)

waited_and_fired : History 3 no_timers empty_kernel sleeping_again.1 sleeping_again.2
unfolding mem timer_init timer_start start_timer insert_sorted_by_expiry insert_by_expiry give given
    count_up wake_waiter service_take Semaphore.take service_wait wait_on
    insert_waiter_priority_sorted insert_sorted prepare_block tick scan_delayed expire wake rearm
    rearm_periodic next_expiry fire fire_head add32 sub32 not_before remove
waited_and_fired =
    then_step
      (then_step
        (then_step
          (then_step (then_step (then_step started (sleeps _ _ refl)) (sleeps _ _ refl))
            (ticks _ _ (λ t first due. ground arith)))
          (ticks _ _ (λ t first due. ground arith)))
        (rounds sleeping.1 woken (some 64, 0) fired_once refl refl))
      (sleeps fired_once woken refl)

fell_asleep : asleep 3 sleeping_again.1 sleeping_again.2 ≡ true
unfolding mem timer_init timer_start start_timer insert_sorted_by_expiry insert_by_expiry give given
    count_up wake_waiter service_take Semaphore.take service_wait wait_on
    insert_waiter_priority_sorted insert_sorted prepare_block tick scan_delayed expire wake rearm
    rearm_periodic next_expiry fire fire_head add32 sub32 not_before remove
fell_asleep = refl

History-InOrder_example : InOrder 3 sleeping_again.1 sleeping_again.2
History-InOrder_example =
    History-InOrder {k = empty_kernel} {k' = sleeping_again.2} no_timers-Fresh (omega arith)
      waited_and_fired

abbrev no_period_timer : Service
no_period_timer = record {
  timers = λ t. timer 0 100 true true;
  active_timers = 5 ∷ [];
  timer_wake_sem = record { count = 0; max_count = 1; waiters = 41 };
}

zero-ZeroPeriod : ZeroPeriod 100 5 no_period_timer
zero-ZeroPeriod = record { only = refl; due = refl; periodic = refl; no_period = refl }

fire_all-ZeroPeriod_example : fire_all 1000 100 no_period_timer ≡ none
fire_all-ZeroPeriod_example =
    fire_all-ZeroPeriod 1000 100 5 no_period_timer (omega arith) zero-ZeroPeriod
