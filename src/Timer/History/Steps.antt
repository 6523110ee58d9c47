-- ===== src/Timer/History/Steps.antt =====
-- kernel/src/timer.c: what each step of a history keeps.
use nimble_rtos.Common.{
  ℕ, ◌<◌, ◌≡◌, refl, false, Option, some, arith, inl, inr, ap, ◌∙◌, sym, subst,
}
use nimble_rtos.Common.Tids.{mem}
use nimble_rtos.Common.Words.{word}
use nimble_rtos.Kernel.{Kernel}
use nimble_rtos.Timer.{
  Service, timer_name, timer_init, timer_reset, fire, rearm, service_take, set_timer,
  rearm_periodic, expire_one_shot, insert_sorted_by_expiry,
}
use nimble_rtos.Timer.Firing.{fire-cases}
use nimble_rtos.Timer.History.{quarter, Elsewhere, TimerStep, History, nothing_yet, then_step}
use nimble_rtos.Timer.History.{inits, starts, stops, resets, sleeps, rounds, ticks, elsewhere}
use nimble_rtos.Timer.History.Kept.{
  InWindow, set_timer-InWindow, timer_start-InWindow, timer_stop-InWindow, sem-InWindow,
}
use nimble_rtos.Timer.History.Rounds.{rearm-InWindow}
use nimble_rtos.Timer.History.Ticking.{ticks-InWindow}
use nimble_rtos.Timer.History.Sleeping.{
  InTime, nobody-InTime, awake-nobody, fewer-InTime, timer_start-InTime, timer_stop-InTime,
}
use nimble_rtos.Timer.History.Waiting.{ticks-InTime, service_take-InTime, service_take-count}
use nimble_rtos.Semaphore.{Semaphore}

round-InWindow :
    (s : Service) (now : ℕ)
    → InWindow s now
    → (call : Option ℕ × ℕ) (s' : Service) → fire now s ≡ some (call, s')
    → InWindow s' now
round-InWindow s now w call s' fired = elim (fire-cases now w.now_small s) [
  | inl over ↦ absurd (cc (over, fired))
  | inr (t, call', m, due, fired') ↦
      let same : rearm now t s ≡ s' = cc (fired, fired') in
      subst (λ r. InWindow r now) same (rearm-InWindow w t m due)
]

reset-InWindow :
    {s : Service} {now : ℕ}
    → InWindow s now
    → (t period : ℕ) → period < quarter
    → InWindow (set_timer t (record (s.timers t) { period_ticks = period }) s) now
reset-InWindow {s} w t period short =
    set_timer-InWindow w t (record (s.timers t) { period_ticks = period }) refl short (λ on. refl)

service_take-InWindow :
    (self : ℕ) (s : Service) (k : Kernel)
    → InWindow s k.tick_count
    → InWindow (service_take self s k).1 (service_take self s k).2.tick_count
unfolding service_take
service_take-InWindow self s k w =
    subst (λ (n : ℕ). InWindow (service_take self s k).1 n) (sym (service_take-count self s k))
      (sem-InWindow w (service_take self s k).1.timer_wake_sem)

rearm_sem : (now t : ℕ) (s : Service) → (rearm now t s).timer_wake_sem ≡ s.timer_wake_sem
unfolding rearm rearm_periodic expire_one_shot insert_sorted_by_expiry
rearm_sem now t s = ground arith

round_sem :
    (s : Service) (now : ℕ)
    → now < word
    → (call : Option ℕ × ℕ) (s' : Service) → fire now s ≡ some (call, s')
    → s'.timer_wake_sem ≡ s.timer_wake_sem
round_sem s now small call s' fired = elim (fire-cases now small s) [
  | inl over ↦ absurd (cc (over, fired))
  | inr (t, call', m, due, fired') ↦
      let same : s' ≡ rearm now t s = cc (fired, fired') in
      ap (λ (r : Service). r.timer_wake_sem) same ∙ rearm_sem now t s
]

Elsewhere-InTime :
    {self : ℕ} {s : Service} {k : Kernel} {sem : Semaphore} {k' : Kernel}
    → InTime self s k
    → Elsewhere self s k sem k'
    → InTime self (record s { timer_wake_sem = sem }) k'
Elsewhere-InTime {self} {s} {k} {sem} {k'} i e = record {
  alone = λ x m. i.alone x (e.no_other x (at_same x ∙ m));
  ahead = λ sleeps x m.
      let slept = at_same self ∙ sleeps in
      let a = i.ahead (e.no_other self slept) x m in
      let same = e.same_wake slept in
      record {
        timed = same.1 a.timed;
        fits = rw same.0 a.fits;
        to_come = rw same.0 (rw e.same_count a.to_come);
        in_time = rw same.0 (rw e.same_count a.in_time);
        near = rw e.same_count a.near;
      };
}
  where
    at_same :
        (x : ℕ) → mem x (k'.wait_lists s.timer_wake_sem.waiters) ≡ mem x (k'.wait_lists sem.waiters)
    at_same x = ap (λ v. mem x (k'.wait_lists v)) (sym e.same_list)

step-InWindow :
    {self : ℕ} {s : Service} {k : Kernel} {s' : Service} {k' : Kernel}
    → InWindow s k.tick_count
    → TimerStep self s k s' k'
    → InWindow s' k'.tick_count
unfolding timer_init timer_reset
step-InWindow w (inits s k t name period periodic callback arg off short) =
    set_timer-InWindow w t
      (record {
        period_ticks = period;
        expiry_tick = 0;
        is_periodic = periodic;
        is_active = false;
        callback = callback;
        arg = arg;
        name = timer_name name;
      })
      (ground (arith, off)) (ground (arith, short)) (λ on. absurd (ground arith))
step-InWindow w (starts s k t) = timer_start-InWindow k w t
step-InWindow w (stops s k t) = timer_stop-InWindow w t
step-InWindow w (resets s k t period short) =
    timer_start-InWindow k (reset-InWindow w t period short) t
step-InWindow {self} w (sleeps s k awake) = service_take-InWindow self s k w
step-InWindow w (rounds s k call s' awake fired) = round-InWindow s k.tick_count w call s' fired
step-InWindow w (ticks s k punctual) = ticks-InWindow k w punctual
step-InWindow w (elsewhere s k sem k' e) =
    subst (λ (n : ℕ). InWindow (record s { timer_wake_sem = sem }) n) (sym e.same_count)
      (sem-InWindow w sem)

step-InTime :
    {self : ℕ} {s : Service} {k : Kernel} {s' : Service} {k' : Kernel}
    → InWindow s k.tick_count
    → InTime self s k
    → TimerStep self s k s' k'
    → InTime self s' k'
unfolding timer_init timer_reset
step-InTime w i (inits s k t name period periodic callback arg off short) =
    fewer-InTime i _ refl (λ x m. (m, let l = w.valid.listed x in ground (arith, off)))
step-InTime w i (starts s k t) = timer_start-InTime w i t
step-InTime w i (stops s k t) = timer_stop-InTime i t
step-InTime w i (resets s k t period short) =
    timer_start-InTime (reset-InWindow w t period short)
      (fewer-InTime i _ refl (λ x m. (m, ground arith))) t
step-InTime w i (sleeps s k awake) = service_take-InTime w i awake
step-InTime {self} w i (rounds s k call s' awake fired) =
    let same = round_sem s k.tick_count w.now_small call s' fired in
    nobody-InTime
      (λ x. ap (λ (m : Semaphore). mem x (k.wait_lists m.waiters)) same ∙ awake-nobody i awake x)
step-InTime w i (ticks s k punctual) = ticks-InTime w i
step-InTime w i (elsewhere s k sem k' e) = Elsewhere-InTime i e

pub History-kept :
    {self : ℕ} {s : Service} {k : Kernel} {s' : Service} {k' : Kernel}
    → InWindow s k.tick_count × InTime self s k
    → History self s k s' k'
    → InWindow s' k'.tick_count × InTime self s' k'
History-kept h nothing_yet = h
History-kept h (then_step before last) =
    let r = History-kept h before in (step-InWindow r.0 last, step-InTime r.0 r.1 last)
