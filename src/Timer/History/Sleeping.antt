-- ===== src/Timer/History/Sleeping.antt =====
-- kernel/src/timer.c: the service task never sleeps past the first timer.
use nimble_rtos.Common.{
  ℕ, ◌^◌, ◌<◌, ◌≤◌, ◌≡◌, refl, true, false, some, List, [], ◌∷◌, ◌==◌, arith, Bool-cases,
  Option-cases, inl, inr, if◌then◌else◌, head?, sym, subst, ap, ◌∙◌, ==_iff,
}
use nimble_rtos.Common.Tids.{mem, mem-remove, mem_of_head}
use nimble_rtos.Common.Words.{add32, sub32, not_before, word}
use nimble_rtos.Kernel.{Kernel, ok}
use nimble_rtos.Scheduler.{wake_waiter}
use nimble_rtos.Scheduler.Waking.{wake_waiter-none, wake_waiter-some, wake_wait_lists}
use nimble_rtos.Semaphore.{Semaphore, give, given, count_up}
use nimble_rtos.Timer.{
  Service, expiry_of, timer_start, start_timer, timer_stop, insert_sorted_by_expiry, is_first,
}
use nimble_rtos.Timer.Members.{start_timer-mem}
use nimble_rtos.Timer.Window.{first-not_before}
use nimble_rtos.Timer.History.{quarter, asleep}
use nimble_rtos.Timer.History.Kept.{InWindow, start_timer-InWindow}
use nimble_rtos.Timer.History.Ticking.{not_mem_of_no_head}

-- The timeout of the service task comes, and does so no later than `expiry`.
pub record Ahead (self expiry : ℕ) (k : Kernel) : Type 0 where
  pub timed : mem self k.delayed_list ≡ true
  pub fits : (k.tcbs self).wake_tick < word
  pub to_come : 0 < sub32 (k.tcbs self).wake_tick k.tick_count
  pub in_time : sub32 (k.tcbs self).wake_tick k.tick_count ≤ sub32 expiry k.tick_count
  pub near : sub32 expiry k.tick_count < 2 ^ 31

-- Nobody else waits for the semaphore, and the service task sleeps no longer than any timer allows.
pub record InTime (self : ℕ) (s : Service) (k : Kernel) : Type 0 where
  pub alone : (x : ℕ) → mem x (k.wait_lists s.timer_wake_sem.waiters) ≡ true → x ≡ self
  pub ahead :
      asleep self s k ≡ true → (x : ℕ) → mem x s.active_timers ≡ true → Ahead self (expiry_of s x) k

-- A give lets nobody wait.
module _ (self : ℕ) (sem : Semaphore) (k : Kernel)
    (alone : (x : ℕ) → mem x (k.wait_lists sem.waiters) ≡ true → x ≡ self) where
  give-nobody : (x : ℕ) → mem x ((give sem k).2.wait_lists sem.waiters) ≡ false
  unfolding give given
  give-nobody x = elim (Option-cases (head? (k.wait_lists sem.waiters))) [
    | inl nobody ↦
        rw (wake_waiter-none sem.waiters k nobody)
          (not_mem_of_no_head x (k.wait_lists sem.waiters) nobody)
    | inr (h, first) ↦ rw (wake_waiter-some sem.waiters h k first) (
        let first_self = alone h (mem_of_head h (k.wait_lists sem.waiters) first) in
        ground (
          arith,
          wake_wait_lists h ok sem.waiters k,
          mem-remove x h (k.wait_lists sem.waiters),
          alone x,
        ))
  ]

give-waiters : (sem : Semaphore) (k : Kernel) → (give sem k).1.waiters ≡ sem.waiters
unfolding give given count_up wake_waiter
give-waiters sem k = ground arith

-- Who is not asleep is in time, whatever the timers say.
module _ {self : ℕ} {s : Service} {k : Kernel}
    (nobody : (x : ℕ) → mem x (k.wait_lists s.timer_wake_sem.waiters) ≡ false) where
  pub nobody-InTime : InTime self s k
  nobody-InTime = record {
    alone = λ x m. let out = nobody x in absurd (ground arith);
    ahead = λ sleeps. let out = nobody self in absurd (ground arith);
  }

module _ {self : ℕ} {s : Service} {k : Kernel} (i : InTime self s k)
    (awake : asleep self s k ≡ false) where
  pub awake-nobody : (x : ℕ) → mem x (k.wait_lists s.timer_wake_sem.waiters) ≡ false
  awake-nobody x = elim (Bool-cases (mem x (k.wait_lists s.timer_wake_sem.waiters))) [
    | inl m ↦
        let same = i.alone x m in
        let out : mem x (k.wait_lists s.timer_wake_sem.waiters) ≡ false =
          subst (λ (y : ℕ). mem y (k.wait_lists s.timer_wake_sem.waiters) ≡ false) (sym same)
            awake in
        absurd (ground arith)
    | inr out ↦ out
  ]

-- Fewer timers, with the same expiries.
pub fewer-InTime :
    {self : ℕ} {s : Service} {k : Kernel}
    → InTime self s k
    → (s' : Service) → s'.timer_wake_sem ≡ s.timer_wake_sem
    → ((x : ℕ)
        → mem x s'.active_timers ≡ true
        → (mem x s.active_timers ≡ true) × (expiry_of s' x ≡ expiry_of s x))
    → InTime self s' k
fewer-InTime {self} {s} {k} i s' same fewer =
    let list : s'.timer_wake_sem.waiters ≡ s.timer_wake_sem.waiters = ap (λ m. m.waiters) same in
    record {
      alone = λ x m. i.alone x (ap (λ w. mem x (k.wait_lists w)) (sym list) ∙ m);
      ahead = λ sleeps x m.
          let old = fewer x m in
          subst (λ (e : ℕ). Ahead self e k) (sym old.1)
            (i.ahead (ap (λ w. mem self (k.wait_lists w)) (sym list) ∙ sleeps) x old.0);
    }

-- A start of a timer that is not the first one then.
start_expiry :
    (t now x : ℕ) (s : Service)
    → expiry_of (start_timer t now s) x
      ≡ (if x == t then add32 now (s.timers t).period_ticks else expiry_of s x)
unfolding start_timer insert_sorted_by_expiry
start_expiry t now x s = ground arith

start_sem : (t now : ℕ) (s : Service) → (start_timer t now s).timer_wake_sem ≡ s.timer_wake_sem
unfolding start_timer insert_sorted_by_expiry
start_sem t now s = refl

later_than_ahead :
    (self e now period : ℕ) (k : Kernel)
    → k.tick_count ≡ now
    → now < word
    → e < word
    → period < quarter
    → Ahead self e k
    → not_before (add32 now period) e ≡ true
    → Ahead self (add32 now period) k
unfolding not_before sub32 add32
later_than_ahead self e now period k clock small fits short a later =
    let timed = a.timed in
    let to_come = a.to_come in
    let in_time = a.in_time in
    let near = a.near in
    record {
      timed = timed;
      fits = a.fits;
      to_come = to_come;
      in_time = ground arith;
      near = ground arith;
    }

is_first_of_head :
    (t h : ℕ) (xs : List ℕ) → head? xs ≡ some h → is_first t xs ≡ false → (h == t) ≡ false
is_first_of_head t h [] e f = absurd (ground arith)
is_first_of_head t h (x ∷ xs) e f = ground arith

pub head_of_mem : (x : ℕ) (xs : List ℕ) → mem x xs ≡ true → (h : ℕ) × (head? xs ≡ some h)
unfolding mem
head_of_mem x [] m = absurd (ground arith)
head_of_mem x (y ∷ ys) m = (y, refl)

module _ {self : ℕ} {s : Service} {k : Kernel} (w : InWindow s k.tick_count) (i : InTime self s k)
    (t : ℕ) where
  abbrev now : ℕ
  now = k.tick_count

  abbrev s' : Service
  s' = start_timer t now s

  -- The first timer was there before, and is not after the one that was started.
  started_ahead :
      is_first t s'.active_timers ≡ false
      → asleep self s k ≡ true
      → mem t s'.active_timers ≡ true
      → Ahead self (expiry_of s' t) k
  started_ahead later sleeps m =
      let (h, first) = head_of_mem t s'.active_timers m in
      let w' = start_timer-InWindow w t in
      let mh = mem_of_head h s'.active_timers first in
      let other = is_first_of_head t h s'.active_timers first later in
      let order = first-not_before w'.base_small w'.sorted h t first m in
      let mine : expiry_of s' t ≡ add32 now (s.timers t).period_ticks =
        ground (arith, start_expiry t now t s) in
      let theirs : expiry_of s' h ≡ expiry_of s h = ground (arith, start_expiry t now h s) in
      let old : mem h s.active_timers ≡ true = ground (arith, start_timer-mem w.valid t now h) in
      let inside = w.sorted.inside h old in
      let order' : not_before (add32 now (s.timers t).period_ticks) (expiry_of s h) ≡ true =
        ap (λ (e : ℕ). not_before e (expiry_of s h)) (sym mine)
        ∙ (ap (not_before (expiry_of s' t)) (sym theirs) ∙ order) in
      subst (λ (e : ℕ). Ahead self e k) (sym mine)
        (later_than_ahead self (expiry_of s h) now (s.timers t).period_ticks k refl w.now_small
          (ground arith) (w.periods t) (i.ahead sleeps h old) order')

  start_timer-InTime : is_first t s'.active_timers ≡ false → InTime self s' k
  start_timer-InTime later =
      let list : s'.timer_wake_sem.waiters ≡ s.timer_wake_sem.waiters =
        ap (λ m. m.waiters) (start_sem t now s) in
      record {
        alone = λ x m. i.alone x (ap (λ v. mem x (k.wait_lists v)) (sym list) ∙ m);
        ahead = λ sleeps x m.
            let slept : asleep self s k ≡ true =
              ap (λ v. mem self (k.wait_lists v)) (sym list) ∙ sleeps in
            elim (Bool-cases (x == t)) [
              | inl same ↦
                  let e : x ≡ t = (==_iff x t).0 same in
                  subst (λ (y : ℕ). Ahead self (expiry_of s' y) k) (sym e)
                    (started_ahead later slept (ap (λ (y : ℕ). mem y s'.active_timers) (sym e) ∙ m))
              | inr other ↦
                  let old : mem x s.active_timers ≡ true =
                    ground (arith, start_timer-mem w.valid t now x) in
                  let kept : expiry_of s' x ≡ expiry_of s x =
                    ground (arith, start_expiry t now x s) in
                  subst (λ (e : ℕ). Ahead self e k) (sym kept) (i.ahead slept x old)
            ];
      }

  started_alone : (x : ℕ) → mem x (k.wait_lists s'.timer_wake_sem.waiters) ≡ true → x ≡ self
  started_alone x m =
      i.alone x
        (ap (λ (m : Semaphore). mem x (k.wait_lists m.waiters)) (sym (start_sem t now s)) ∙ m)

  pub timer_start-InTime : InTime self (timer_start t s k).1 (timer_start t s k).2
  unfolding timer_start
  timer_start-InTime = elim (Bool-cases (is_first t s'.active_timers)) [
    | inl first ↦ rw first (
        nobody-InTime (λ x.
          ap (λ v. mem x ((give s'.timer_wake_sem k).2.wait_lists v))
            (give-waiters s'.timer_wake_sem k)
          ∙ give-nobody self s'.timer_wake_sem k started_alone x))
    | inr later ↦ rw later (start_timer-InTime later)
  ]

pub timer_stop-InTime :
    {self : ℕ} {s : Service} {k : Kernel}
    → InTime self s k
    → (t : ℕ) → InTime self (timer_stop t s).1 k
unfolding timer_stop
timer_stop-InTime {s = s} i t = elim (Bool-cases (s.timers t).is_active) [
  | inl on ↦ rw on (
      fewer-InTime i _ refl (λ x m. (ground (arith, mem-remove x t s.active_timers), ground arith)))
  | inr off ↦ rw off i
]
