-- ===== src/Timer/History/InOrder.antt =====
-- kernel/src/timer.c: the list of active timers stays in order and the service task wakes in time, whatever
-- happens.
use nimble_rtos.Common.{ℕ, ◌<◌, ◌≡◌, refl, true, false, some, [], arith, head?, sym}
use nimble_rtos.Common.Tids.{mem, distinct, mem_of_head}
use nimble_rtos.Common.Words.{sub32, not_before, word}
use nimble_rtos.Kernel.{Kernel}
use nimble_rtos.Waiters.Sorted.{is_sorted}
use nimble_rtos.Timer.{Service, expiry_of, after, service_wait}
use nimble_rtos.Timer.Members.{ServiceValid}
use nimble_rtos.Timer.Order.{none_due}
use nimble_rtos.Timer.Window.{first-not_before}
use nimble_rtos.Timer.Periodic.{WaitsUntil, service_wait-WaitsUntil}
use nimble_rtos.Timer.History.{quarter, asleep, History}
use nimble_rtos.Timer.History.Kept.{InWindow}
use nimble_rtos.Timer.History.Ticking.{now_within}
use nimble_rtos.Timer.History.Sleeping.{Ahead, InTime, nobody-InTime}
use nimble_rtos.Timer.History.Steps.{History-kept}

-- No timer is active, none has a period of a quarter of the range or more, and nobody waits.
pub record Fresh (s : Service) (k : Kernel) : Type 0 where
  pub nothing_linked : s.active_timers ≡ []
  pub none_active : (t : ℕ) → (s.timers t).is_active ≡ false
  pub short : (t : ℕ) → (s.timers t).period_ticks < quarter
  pub nobody_waits : k.wait_lists s.timer_wake_sem.waiters ≡ []

pub record InOrder (self : ℕ) (s : Service) (k : Kernel) : Type 0 where
  pub valid : ServiceValid s
  pub soonest :
      (t x : ℕ)
      → head? s.active_timers ≡ some t
      → mem x s.active_timers ≡ true
      → not_before (expiry_of s x) (expiry_of s t) ≡ true
  pub undue :
      (t x : ℕ)
      → head? s.active_timers ≡ some t
      → after (expiry_of s t) k.tick_count ≡ true
      → mem x s.active_timers ≡ true
      → after (expiry_of s x) k.tick_count ≡ true
  pub waits :
      (t : ℕ)
      → head? s.active_timers ≡ some t
      → WaitsUntil k.tick_count (expiry_of s t) (service_wait k.tick_count s)
  pub asleep_undue :
      asleep self s k ≡ true
      → (x : ℕ) → mem x s.active_timers ≡ true
      → after (expiry_of s x) k.tick_count ≡ true
  pub asleep_ahead :
      asleep self s k ≡ true → (x : ℕ) → mem x s.active_timers ≡ true → Ahead self (expiry_of s x) k

Fresh-InWindow :
    {s : Service} (k : Kernel) → Fresh s k → k.tick_count < word → InWindow s k.tick_count
unfolding mem is_sorted distinct sub32
Fresh-InWindow {s} k f fits = record {
  valid = record {
    listed = λ t. let off = f.none_active t in rw f.nothing_linked (sym off);
    once = rw f.nothing_linked refl;
  };
  periods = f.short;
  base = k.tick_count;
  base_small = fits;
  now_small = fits;
  lag = omega (arith, fits);
  sorted = record {
    inside = λ x m.
        let out : mem x s.active_timers ≡ false = rw f.nothing_linked refl in absurd (ground arith);
    ordered = rw f.nothing_linked refl;
  };
}

Fresh-InTime : {s : Service} (self : ℕ) (k : Kernel) → Fresh s k → InTime self s k
unfolding mem
Fresh-InTime self k f = nobody-InTime (λ x. rw f.nobody_waits refl)

ahead_undue :
    (self e : ℕ) (k : Kernel)
    → k.tick_count < word
    → e < word
    → Ahead self e k
    → after e k.tick_count ≡ true
unfolding not_before sub32
ahead_undue self e k small fits a =
    let to_come = a.to_come in let in_time = a.in_time in let near = a.near in ground arith

kept-InOrder :
    {s : Service} (self : ℕ) (k : Kernel)
    → InWindow s k.tick_count
    → InTime self s k
    → InOrder self s k
unfolding sub32
kept-InOrder {s} self k w i = record {
  valid = w.valid;
  soonest = λ t x first m. first-not_before w.base_small w.sorted t x first m;
  undue = λ t x first later m.
      none_due w.base_small w.sorted k.tick_count t x (now_within w) first later m;
  waits = λ t first.
      let inside = w.sorted.inside t (mem_of_head t s.active_timers first) in
      service_wait-WaitsUntil k.tick_count t s w.now_small (ground arith) first;
  asleep_undue = λ sleeps x m.
      let inside = w.sorted.inside x m in
      ahead_undue self (expiry_of s x) k w.now_small (ground arith) (i.ahead sleeps x m);
  asleep_ahead = i.ahead;
}

-- From a service without active timers, with periods below 2^30, and with nobody waiting for its
-- semaphore, after any sequence of inits of inactive timers, starts, stops, resets to such
-- periods, ticks, and waits and rounds of the service task, a start counting as one step with the
-- give behind it and the computation of a wait with the take, where the first timer is never 2^30
-- ticks late and the rest of the kernel puts no task into the wait list of that semaphore and
-- leaves the sleeping service task its timeout: the list holds each active timer once and no
-- other, none expires before the first one, if the first is not due none is, and a wait computed
-- now ends when the first is due; and while the service task sleeps in its wait list no active
-- timer is due, and if there is one, the task is on the delayed list with a wake tick that is
-- still to come and not after any expiry.
pub History-InOrder :
    {self : ℕ} {s : Service} {k : Kernel} {s' : Service} {k' : Kernel}
    → Fresh s k
    → k.tick_count < word
    → History self s k s' k'
    → InOrder self s' k'
History-InOrder {self} {k = k} {k' = k'} f fits run =
    let r = History-kept (Fresh-InWindow k f fits, Fresh-InTime self k f) run in
    kept-InOrder self k' r.0 r.1
