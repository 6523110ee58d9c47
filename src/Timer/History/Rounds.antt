-- ===== src/Timer/History/Rounds.antt =====
-- kernel/src/timer.c: what a round of the service task keeps of the list of active timers.
use nimble_rtos.Common.{ℕ, ◌<◌, ◌≡◌, refl, true, false, arith, Bool-cases, inl, inr}
use nimble_rtos.Common.Tids.{mem, remove, mem-remove}
use nimble_rtos.Common.Words.{add32, sub32, not_before, word}
use nimble_rtos.Waiters.Sorted.{is_sorted-remove}
use nimble_rtos.Timer.{
  Timer, Service, expiry_of, rearm, rearm_periodic, expire_one_shot, next_expiry, after,
  insert_sorted_by_expiry,
}
use nimble_rtos.Timer.Members.{rearm-ServiceValid}
use nimble_rtos.Timer.Order.{
  ServiceSorted, within, urgency, reinserted-ServiceSorted, unlinked-ServiceSorted,
}
use nimble_rtos.Timer.Window.{}
use nimble_rtos.Timer.History.{quarter}
use nimble_rtos.Timer.History.Kept.{ShortPeriods, InWindow}

rearm_periods : (s : Service) (t now : ℕ) → ShortPeriods s → ShortPeriods (rearm now t s)
unfolding rearm rearm_periodic expire_one_shot insert_sorted_by_expiry
rearm_periods s t now p x = ground (arith, p x)

next_within :
    (base now : ℕ) (c : Timer)
    → base < word
    → now < word
    → sub32 now base < quarter
    → c.period_ticks < quarter
    → within base c.expiry_tick ≡ true
    → after c.expiry_tick now ≡ false
    → within base (next_expiry now c) ≡ true
unfolding next_expiry add32 sub32 not_before
next_within base now c small fits lag short inside due = ground arith

rearm_periodic-sorted :
    {s : Service} {now : ℕ} (w : InWindow s now) (t : ℕ)
    → mem t s.active_timers ≡ true
    → after (expiry_of s t) now ≡ false
    → ServiceSorted w.base (rearm_periodic now t s)
unfolding rearm_periodic
rearm_periodic-sorted {s} {now} w t m due =
    let next = next_expiry now (s.timers t) in
    let away = mem-remove t t s.active_timers in
    reinserted-ServiceSorted w.base s w.base_small t (record (s.timers t) { expiry_tick = next })
      (remove t s.active_timers) (ground (arith, away))
      (λ x h. w.sorted.inside x (ground (arith, mem-remove x t s.active_timers)))
      (is_sorted-remove (λ x. urgency w.base (expiry_of s x)) t s.active_timers w.sorted.ordered)
      (next_within w.base now (s.timers t) w.base_small w.now_small w.lag (w.periods t)
        (w.sorted.inside t m) due)

expire_one_shot-sorted :
    {s : Service} {now : ℕ} (w : InWindow s now) (t : ℕ)
    → ServiceSorted w.base (expire_one_shot t s)
unfolding expire_one_shot
expire_one_shot-sorted {s} w t =
    unlinked-ServiceSorted w.base_small w.sorted t (record (s.timers t) { is_active = false }) refl

pub rearm-InWindow :
    {s : Service} {now : ℕ}
    → InWindow s now
    → (t : ℕ) → mem t s.active_timers ≡ true
    → after (expiry_of s t) now ≡ false
    → InWindow (rearm now t s) now
unfolding rearm
rearm-InWindow {s} {now} w t m due = record {
  valid = rearm-ServiceValid w.valid t now m;
  periods = rearm_periods s t now w.periods;
  base = w.base;
  base_small = w.base_small;
  now_small = w.now_small;
  lag = w.lag;
  sorted = elim (Bool-cases (s.timers t).is_periodic) [
    | inl again ↦ rw again (rearm_periodic-sorted w t m due)
    | inr one_shot ↦ rw one_shot (expire_one_shot-sorted w t)
  ];
}
