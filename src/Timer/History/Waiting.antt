-- ===== src/Timer/History/Waiting.antt =====
-- kernel/src/timer.c: the wait of the service task, and the ticks that it sleeps through.
use nimble_rtos.Common.{
  ℕ, ◌^◌, ◌<◌, ◌≤◌, ◌≡◌, true, false, ◌||◌, ◌==◌, arith, Bool-cases, inl, inr, ◌∙◌, ltb,
}
use nimble_rtos.Common.Tids.{mem, remove, mem_of_head, mem-snoc}
use nimble_rtos.Common.Words.{add32, sub32, not_before, word}
use nimble_rtos.Kernel.{Kernel, wait_forever, no_wait}
use nimble_rtos.Scheduler.{tick, wake, prepare_block}
use nimble_rtos.Scheduler.Timeouts.{is_due, tick_counts}
use nimble_rtos.Scheduler.Timeouts.Sleeping.{tick_wake_tick, tick_still_waits, tick_still_delayed}
use nimble_rtos.Waiters.{wait_on, insert_waiter_priority_sorted, priority_of}
use nimble_rtos.Waiters.Sorted.{mem-insert_sorted}
use nimble_rtos.Waiters.Blocking.{wait_on_lists}
use nimble_rtos.Semaphore.{Semaphore, give, given, count_up}
use nimble_rtos.Semaphore
use nimble_rtos.Timer.{Service, expiry_of, after, service_wait, service_take}
use nimble_rtos.Timer.Order.{none_due}
use nimble_rtos.Timer.Window.{first-not_before}
use nimble_rtos.Timer.History.{asleep}
use nimble_rtos.Timer.History.Sleeping.{Ahead, InTime, nobody-InTime, awake-nobody, head_of_mem}
use nimble_rtos.Timer.Periodic.{service_wait-WaitsUntil}
use nimble_rtos.Timer.History.Kept.{InWindow}
use nimble_rtos.Timer.History.Ticking.{now_within}

ahead_next :
    (now wake e : ℕ)
    → now < word
    → wake < word
    → e < word
    → 0 < sub32 wake now
    → sub32 wake now ≤ sub32 e now
    → sub32 e now < 2 ^ 31
    → not_before (add32 now 1) wake ≡ false
    → (0 < sub32 wake (add32 now 1))
      × (sub32 wake (add32 now 1) ≤ sub32 e (add32 now 1))
      × (sub32 e (add32 now 1) < 2 ^ 31)
unfolding sub32 add32 not_before
ahead_next now wake e small fits fits' to_come in_time near undue =
    (ground arith, ground arith, ground arith)

pub ticks-InTime :
    {self : ℕ} {s : Service} {k : Kernel}
    → InWindow s k.tick_count
    → InTime self s k
    → InTime self s (tick k)
ticks-InTime {self} {s} {k} w i = record {
  alone = λ x m. i.alone x (tick_still_waits x s.timer_wake_sem.waiters k m).0;
  ahead = λ sleeps x m.
      let still = tick_still_waits self s.timer_wake_sem.waiters k sleeps in
      let a = i.ahead still.0 x m in
      let inside = w.sorted.inside x m in
      let timed = a.timed in
      let undue : is_due (add32 k.tick_count 1) self k ≡ false = ground (arith, still.1) in
      let next =
        ahead_next k.tick_count (k.tcbs self).wake_tick (expiry_of s x) w.now_small a.fits
          (ground arith) a.to_come a.in_time a.near undue in
      let clock = tick_counts k in
      let same = tick_wake_tick self k in
      record {
        timed = tick_still_delayed self k undue a.timed;
        fits = rw same a.fits;
        to_come = rw same (rw clock next.0);
        in_time = rw same (rw clock next.1);
        near = rw clock next.2;
      };
}

wait_on_timed :
    (self w n : ℕ) (k : Kernel)
    → (n == wait_forever) ≡ false
    → (mem self (wait_on w n self k).delayed_list ≡ true)
      × (((wait_on w n self k).tcbs self).wake_tick ≡ add32 k.tick_count n)
      × ((wait_on w n self k).tick_count ≡ k.tick_count)
unfolding wait_on insert_waiter_priority_sorted prepare_block
wait_on_timed self w n k limited = (
  rw limited (ground (arith, mem-snoc self (remove self k.delayed_list) self)),
  ground arith,
  ground arith,
)

module _ {self : ℕ} {s : Service} {k : Kernel} (w : InWindow s k.tick_count) (i : InTime self s k)
    (awake : asleep self s k ≡ false) where
  abbrev now : ℕ
  now = k.tick_count

  abbrev wait : ℕ
  wait = service_wait now s

  abbrev sem : Semaphore
  sem = s.timer_wake_sem

  abbrev waiting : Kernel
  waiting = wait_on sem.waiters wait self k

  waiting_list :
      (x : ℕ)
      → mem x (waiting.wait_lists sem.waiters) ≡ ((x == self) || mem x (k.wait_lists sem.waiters))
  waiting_list x = ground (
    arith,
    wait_on_lists sem.waiters wait self sem.waiters k,
    mem-insert_sorted (priority_of k) x self (k.wait_lists sem.waiters),
  )

  wait_ahead :
      (wait == no_wait) ≡ false
      → (x : ℕ) → mem x s.active_timers ≡ true
      → Ahead self (expiry_of s x) waiting
  unfolding sub32 not_before add32
  wait_ahead blocks x m =
      let (h, first) = head_of_mem x s.active_timers m in
      let mh = mem_of_head h s.active_timers first in
      let inside_h = w.sorted.inside h mh in
      let inside_x = w.sorted.inside x m in
      let small = w.now_small in
      let until = service_wait-WaitsUntil now h s w.now_small (ground arith) first in
      let later : after (expiry_of s h) now ≡ true = elim (Bool-cases (after (expiry_of s h) now)) [
        | inl yes_later ↦ yes_later
        | inr due ↦ let at_once = until.at_once due in absurd (ground arith)
      ] in
      let exact = until.later later in
      let undue = none_due w.base_small w.sorted now h x (now_within w) first later m in
      let order = first-not_before w.base_small w.sorted h x first m in
      let parked = wait_on_timed self sem.waiters wait k (ground (arith, exact)) in
      let wakes : (waiting.tcbs self).wake_tick ≡ expiry_of s h = parked.1 ∙ exact.0 in
      record {
        timed = parked.0;
        fits = rw wakes (ground arith);
        to_come = rw wakes (rw parked.2 (ground arith));
        in_time = rw wakes (rw parked.2 (ground arith));
        near = rw parked.2 (ground arith);
      }

  waiting-InTime : (wait == no_wait) ≡ false → InTime self s waiting
  waiting-InTime blocks = record {
    alone = λ x m. let out = awake-nobody i awake x in ground (arith, waiting_list x);
    ahead = λ sleeps. wait_ahead blocks;
  }

  pub service_take-InTime : InTime self (service_take self s k).1 (service_take self s k).2
  unfolding service_take Semaphore.take
  service_take-InTime = elim (Bool-cases (ltb 0 sem.count)) [
    | inl unit ↦ rw unit (nobody-InTime (awake-nobody i awake))
    | inr none_left ↦ elim (Bool-cases (wait == no_wait)) [
      | inl at_once ↦ rw none_left (rw at_once (nobody-InTime (awake-nobody i awake)))
      | inr blocks ↦
          let r = waiting-InTime blocks in
          rw none_left (rw blocks (record { alone = r.alone; ahead = r.ahead }))
    ]
  ]

pub service_take-count :
    (self : ℕ) (s : Service) (k : Kernel) → (service_take self s k).2.tick_count ≡ k.tick_count
unfolding service_take Semaphore.take wait_on insert_waiter_priority_sorted prepare_block
service_take-count self s k = ground arith
