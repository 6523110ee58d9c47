-- ===== src/Timer/History/Kept.antt =====
-- kernel/src/timer.c: what the calls keep of the list of active timers.
use nimble_rtos.Common.{ℕ, ◌<◌, ◌≡◌, refl, true, false, arith, Bool-cases, inl, inr, ap, sym, subst}
use nimble_rtos.Common.Tids.{mem}
use nimble_rtos.Common.Words.{add32, sub32, word}
use nimble_rtos.Kernel.{Kernel}
use nimble_rtos.Semaphore.{Semaphore, give, given}
use nimble_rtos.Scheduler.{wake_waiter}
use nimble_rtos.Waiters.Sorted.{is_sorted_ext}
use nimble_rtos.Timer.{
  Timer, Service, expiry_of, set_timer, timer_start, start_timer, timer_stop,
  insert_sorted_by_expiry, is_first,
}
use nimble_rtos.Timer.Members.{
  ServiceValid, start_timer-ServiceValid, timer_stop-ServiceValid, sem-ServiceValid,
}
use nimble_rtos.Timer.Order.{
  ServiceSorted, within, urgency, start_timer-ServiceSorted, unlinked-ServiceSorted,
}
use nimble_rtos.Timer.Window.{}
use nimble_rtos.Timer.History.{quarter}

abbrev pub ShortPeriods : Service → Type 0
ShortPeriods s = (t : ℕ) → (s.timers t).period_ticks < quarter

pub record InWindow (s : Service) (now : ℕ) : Type 0 where
  pub valid : ServiceValid s
  pub periods : ShortPeriods s
  pub base : ℕ
  pub base_small : base < word
  pub now_small : now < word
  pub lag : sub32 now base < quarter
  pub sorted : ServiceSorted base s

pub start_timer-InWindow :
    {s : Service} {now : ℕ} → InWindow s now → (t : ℕ) → InWindow (start_timer t now s) now
unfolding start_timer insert_sorted_by_expiry add32 sub32
start_timer-InWindow {s} {now} w t =
    let short = w.periods t in
    let lag = w.lag in
    let small = w.base_small in
    let fits = w.now_small in
    record {
      valid = start_timer-ServiceValid w.valid t now;
      periods = λ x. let p = w.periods x in ground arith;
      base = w.base;
      base_small = w.base_small;
      now_small = w.now_small;
      lag = w.lag;
      sorted = start_timer-ServiceSorted w.base_small w.sorted w.valid t now (ground arith);
    }

pub sem-InWindow :
    {s : Service} {now : ℕ}
    → InWindow s now
    → (sem : Semaphore) → InWindow (record s { timer_wake_sem = sem }) now
sem-InWindow w sem = record {
  valid = sem-ServiceValid w.valid sem;
  periods = w.periods;
  base = w.base;
  base_small = w.base_small;
  now_small = w.now_small;
  lag = w.lag;
  sorted = record { inside = w.sorted.inside; ordered = w.sorted.ordered };
}

give-tick_count : (sem : Semaphore) (k : Kernel) → (give sem k).2.tick_count ≡ k.tick_count
unfolding give given wake_waiter
give-tick_count sem k = ground arith

-- Another text for a timer, with its expiry if it is active.
module _ {s : Service} {now : ℕ} (w : InWindow s now) (t : ℕ) (c : Timer)
    (same_active : c.is_active ≡ (s.timers t).is_active) (short : c.period_ticks < quarter)
    (same_expiry : (s.timers t).is_active ≡ true → c.expiry_tick ≡ expiry_of s t) where
  kept_expiry :
      (x : ℕ) → mem x s.active_timers ≡ true → expiry_of s x ≡ expiry_of (set_timer t c s) x
  kept_expiry x m = let l = w.valid.listed x in ground (arith, same_expiry)

  pub set_timer-InWindow : InWindow (set_timer t c s) now
  set_timer-InWindow = record {
    valid = record {
      listed = λ x. let l = w.valid.listed x in ground (arith, same_active);
      once = w.valid.once;
    };
    periods = λ x. let p = w.periods x in ground (arith, short);
    base = w.base;
    base_small = w.base_small;
    now_small = w.now_small;
    lag = w.lag;
    sorted = record {
      inside =
          λ x m. subst (λ (e : ℕ). within w.base e ≡ true) (kept_expiry x m) (w.sorted.inside x m);
      ordered =
          is_sorted_ext (λ x. urgency w.base (expiry_of s x))
            (λ x. urgency w.base (expiry_of (set_timer t c s) x)) s.active_timers
            (λ x m. ap (urgency w.base) (kept_expiry x m)) w.sorted.ordered;
    };
  }

pub timer_start-InWindow :
    {s : Service} (k : Kernel)
    → InWindow s k.tick_count
    → (t : ℕ) → InWindow (timer_start t s k).1 (timer_start t s k).2.tick_count
unfolding timer_start
timer_start-InWindow {s} k w t =
    let s' = start_timer t k.tick_count s in
    let started = start_timer-InWindow w t in
    let g = give s'.timer_wake_sem k in
    elim (Bool-cases (is_first t s'.active_timers)) [
      | inl first ↦ rw first (
          subst (λ (n : ℕ). InWindow (record s' { timer_wake_sem = g.1 }) n)
            (sym (give-tick_count s'.timer_wake_sem k)) (sem-InWindow started g.1))
      | inr later ↦ rw later started
    ]

pub timer_stop-InWindow :
    {s : Service} {now : ℕ} → InWindow s now → (t : ℕ) → InWindow (timer_stop t s).1 now
unfolding timer_stop
timer_stop-InWindow {s} {now} w t = record {
  valid = timer_stop-ServiceValid w.valid t;
  periods = λ x. let p = w.periods x in ground arith;
  base = w.base;
  base_small = w.base_small;
  now_small = w.now_small;
  lag = w.lag;
  sorted = elim (Bool-cases (s.timers t).is_active) [
    | inl on ↦ rw on (
        unlinked-ServiceSorted w.base_small w.sorted t (record (s.timers t) { is_active = false })
          refl)
    | inr off ↦ rw off w.sorted
  ];
}
