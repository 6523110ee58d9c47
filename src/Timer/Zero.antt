-- ===== src/Timer/Zero.antt =====
-- kernel/src/timer.c: a periodic timer of period 0.
use nimble_rtos.Common.{ℕ, zero, suc, ◌<◌, ◌≡◌, refl, true, none, some, [], ◌∷◌, arith, ap}
use nimble_rtos.Common.Tids.{remove}
use nimble_rtos.Common.Words.{add32, sub32, not_before, word}
use nimble_rtos.Timer.{
  Service, expiry_of, insert_by_expiry, insert_sorted_by_expiry, rearm, rearm_periodic, fire,
  fire_head, fire_all, next_expiry,
}

-- The only active timer is `t`: it is due now, periodic, and its period is 0.
pub record ZeroPeriod (now t : ℕ) (s : Service) : Type 0 where
  pub only : s.active_timers ≡ t ∷ []
  pub due : (s.timers t).expiry_tick ≡ now
  pub periodic : (s.timers t).is_periodic ≡ true
  pub no_period : (s.timers t).period_ticks ≡ 0

module _ {now t : ℕ} (small : now < word) {s : Service} (z : ZeroPeriod now t s) where
  same_expiry : next_expiry now (s.timers t) ≡ now
  unfolding next_expiry add32 not_before sub32
  same_expiry = ground (arith, z.due, z.no_period)

  alone : remove t s.active_timers ≡ []
  unfolding remove
  alone = ground (arith, z.only)

  again-ZeroPeriod : ZeroPeriod now t (rearm_periodic now t s)
  unfolding rearm_periodic insert_sorted_by_expiry insert_by_expiry
  again-ZeroPeriod = record {
    only = ap (λ zs. insert_by_expiry (expiry_of (rearm_periodic now t s)) t zs) alone;
    due = ground (arith, same_expiry);
    periodic = ground (arith, z.periodic);
    no_period = ground (arith, z.no_period);
  }

  fires_again :
      fire now s ≡ some (((s.timers t).callback, (s.timers t).arg), rearm_periodic now t s)
  unfolding fire fire_head rearm
  fires_again = ground (arith, z.only, z.due, z.periodic)

-- With a tick count below 2^32, if the only active timer is due now and periodic with the period
-- 0, the inner loop of the service task does not end on any fuel, while the tick count stands
-- still and the callback changes no timer.
pub fire_all-ZeroPeriod :
    (fuel now t : ℕ) (s : Service) → now < word → ZeroPeriod now t s → fire_all fuel now s ≡ none
unfolding fire_all
fire_all-ZeroPeriod zero now t s small z = refl
fire_all-ZeroPeriod (suc n) now t s small z =
    let rest =
      fire_all-ZeroPeriod n now t (rearm_periodic now t s) small (again-ZeroPeriod small z) in
    rw (fire_all, fires_again small z) (rw rest refl)
