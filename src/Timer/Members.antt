-- ===== src/Timer/Members.antt =====
-- kernel/src/timer.c: the list of active timers against what the timers say.
use nimble_rtos.Common.{
  ℕ, zero, suc, ◌+◌, ◌<◌, ◌≤◌, ◌≡◌, refl, Bool, true, false, not, ◌&&◌, ◌||◌, Option, none, some,
  List, [], ◌∷◌, ◌==◌, arith, Bool-cases, Option-cases, inl, inr, if◌then◌else◌, head?, update,
}
use nimble_rtos.Common.Tids.{mem, distinct, remove, mem-remove, distinct-remove}
use nimble_rtos.Kernel.{Kernel, Status}
use nimble_rtos.Semaphore.{Semaphore, give}
use nimble_rtos.Timer.{
  Service, insert_by_expiry, expiry_of, insert_sorted_by_expiry, start_timer, timer_start,
  timer_stop, rearm, rearm_periodic, expire_one_shot, is_first,
}

pub record ServiceValid (s : Service) : Type 0 where
  pub listed : (t : ℕ) → mem t s.active_timers ≡ (s.timers t).is_active
  pub once : distinct s.active_timers ≡ true

pub mem-insert_by_expiry :
    (expiry : ℕ → ℕ) (x t : ℕ) (xs : List ℕ)
    → mem x (insert_by_expiry expiry t xs) ≡ ((x == t) || mem x xs)
unfolding mem insert_by_expiry
mem-insert_by_expiry expiry x t [] = refl
mem-insert_by_expiry expiry x t (o ∷ os) = ground (arith, mem-insert_by_expiry expiry x t os)

pub distinct-insert_by_expiry :
    (expiry : ℕ → ℕ) (t : ℕ) (xs : List ℕ)
    → distinct xs ≡ true
    → mem t xs ≡ false
    → distinct (insert_by_expiry expiry t xs) ≡ true
unfolding distinct mem insert_by_expiry
distinct-insert_by_expiry expiry t [] d out = refl
distinct-insert_by_expiry expiry t (o ∷ os) d out =
    ground (arith, distinct-insert_by_expiry expiry t os, mem-insert_by_expiry expiry o t os)

abbrev without_it : ℕ → Service → List ℕ
without_it t s = if (s.timers t).is_active then remove t s.active_timers else s.active_timers

module _ {s : Service} (v : ServiceValid s) (t : ℕ) where
  -- The list of `nimble_timer_start` after its removal.
  pub mem-without_it : (x : ℕ) → mem x (without_it t s) ≡ (mem x s.active_timers && not (x == t))
  mem-without_it x = ground (arith, mem-remove x t s.active_timers, v.listed t)

  distinct-without_it : distinct (without_it t s) ≡ true
  distinct-without_it = ground (arith, v.once, distinct-remove t s.active_timers)

  pub start_timer-ServiceValid : (now : ℕ) → ServiceValid (start_timer t now s)
  unfolding start_timer insert_sorted_by_expiry
  start_timer-ServiceValid now =
      let s' = start_timer t now s in
      record {
        listed = λ x. ground (
          arith,
          mem-insert_by_expiry (expiry_of s') x t (without_it t s),
          mem-without_it x,
          v.listed x,
        );
        once =
            distinct-insert_by_expiry (expiry_of s') t (without_it t s) distinct-without_it
              (ground (arith, mem-without_it t));
      }

  pub timer_stop-ServiceValid : ServiceValid (timer_stop t s).1
  unfolding timer_stop
  timer_stop-ServiceValid = elim (Bool-cases (s.timers t).is_active) [
    | inl on ↦ rw on (record {
      listed = λ x. ground (arith, mem-remove x t s.active_timers, v.listed x);
      once = distinct-remove t s.active_timers v.once;
    })
    | inr off ↦ rw off v
  ]

  rearm_periodic-ServiceValid :
      (now : ℕ) → mem t s.active_timers ≡ true → ServiceValid (rearm_periodic now t s)
  unfolding rearm_periodic insert_sorted_by_expiry
  rearm_periodic-ServiceValid now m = record {
    listed = λ x. ground (
      arith,
      mem-insert_by_expiry (expiry_of (rearm_periodic now t s)) x t (remove t s.active_timers),
      mem-remove x t s.active_timers,
      v.listed x,
    );
    once =
        distinct-insert_by_expiry (expiry_of (rearm_periodic now t s)) t (remove t s.active_timers)
          (distinct-remove t s.active_timers v.once)
          (ground (arith, mem-remove t t s.active_timers));
  }

  expire_one_shot-ServiceValid : ServiceValid (expire_one_shot t s)
  unfolding expire_one_shot
  expire_one_shot-ServiceValid = record {
    listed = λ x. ground (arith, mem-remove x t s.active_timers, v.listed x);
    once = distinct-remove t s.active_timers v.once;
  }

  pub rearm-ServiceValid : (now : ℕ) → mem t s.active_timers ≡ true → ServiceValid (rearm now t s)
  unfolding rearm
  rearm-ServiceValid now m = elim (Bool-cases (s.timers t).is_periodic) [
    | inl again ↦ rw again (rearm_periodic-ServiceValid now m)
    | inr one_shot ↦ rw one_shot expire_one_shot-ServiceValid
  ]

pub sem-ServiceValid :
    {s : Service}
    → ServiceValid s
    → (sem : Semaphore) → ServiceValid (record s { timer_wake_sem = sem })
sem-ServiceValid v sem = record { listed = v.listed; once = v.once }

-- What a started timer is: active, due one period from now, and the semaphore given if it is first.
pub record Started (t now period : ℕ) (s : Service) (k : Kernel) (r : Status × Service × Kernel)
    : Type 0 where
  pub valid : ServiceValid r.1
  pub active : mem t r.1.active_timers ≡ true
  pub due_at : (r.1.timers t).expiry_tick ≡ nimble_rtos.Common.Words.add32 now period
  pub others :
      (x : ℕ)
      → (x == t) ≡ false
      → (r.1.timers x ≡ s.timers x) × (mem x r.1.active_timers ≡ mem x s.active_timers)
  pub told :
      is_first t r.1.active_timers ≡ true
      → (r.1.timer_wake_sem ≡ (give s.timer_wake_sem k).1) × (r.2 ≡ (give s.timer_wake_sem k).2)
  pub quiet :
      is_first t r.1.active_timers ≡ false → (r.1.timer_wake_sem ≡ s.timer_wake_sem) × (r.2 ≡ k)

pub start_timer-mem :
    {s : Service}
    → ServiceValid s
    → (t now x : ℕ)
    → mem x (start_timer t now s).active_timers ≡ ((x == t) || mem x s.active_timers)
unfolding start_timer insert_sorted_by_expiry
start_timer-mem {s} v t now x = ground (
  arith,
  mem-insert_by_expiry (expiry_of (start_timer t now s)) x t (without_it t s),
  mem-without_it v t x,
)

-- `nimble_timer_start` on a valid service leaves it valid, the timer active and due one period
-- from now, and every other timer as it was; the semaphore is given exactly if the timer has
-- become the first of the list.
pub timer_start-Started :
    {s : Service} (k : Kernel) (t : ℕ)
    → ServiceValid s
    → Started t k.tick_count (s.timers t).period_ticks s k (timer_start t s k)
unfolding timer_start start_timer insert_sorted_by_expiry
timer_start-Started {s} k t v =
    let s' = start_timer t k.tick_count s in
    let valid = start_timer-ServiceValid v t k.tick_count in
    elim (Bool-cases (is_first t s'.active_timers)) [
      | inl first ↦ rw first (record {
        valid = sem-ServiceValid valid (give s.timer_wake_sem k).1;
        active = ground (arith, start_timer-mem v t k.tick_count t);
        due_at = ground arith;
        others = λ x other. (ground arith, ground (arith, start_timer-mem v t k.tick_count x));
        told = λ h. (refl, refl);
        quiet = λ h. absurd (ground arith);
      })
      | inr later ↦ rw later (record {
        valid = valid;
        active = ground (arith, start_timer-mem v t k.tick_count t);
        due_at = ground arith;
        others = λ x other. (ground arith, ground (arith, start_timer-mem v t k.tick_count x));
        told = λ h. absurd (ground arith);
        quiet = λ h. (refl, refl);
      })
    ]
