-- ===== src/System/Calls.antt =====
-- kernel/src: each call as a whole, from what its parts do.
use nimble_rtos.Common.{
  ℕ, ◌≢◌, Bool, Option, none, some, List, ◌==◌, arith, Bool-cases, Option-cases, inl, inr, ltb, leb,
}
use nimble_rtos.Common.Tids.{mem-remove, distinct-remove}
use nimble_rtos.Common.Words.{sub32}
use nimble_rtos.Kernel.{Kernel, no_wait}
use nimble_rtos.Scheduler.{wake_waiter, remove_event_link, request_context_switch}
use nimble_rtos.Scheduler.Invariant.{WellFormed}
use nimble_rtos.Waiters.{request_if_woken}
use nimble_rtos.Mutex.{Mutex, lock, lock_resume, unlock, hand_over, restore_priority, is_owner}
use nimble_rtos.Semaphore.{Semaphore, take, take_resume, given, give, given_from_isr, give_from_isr}
use nimble_rtos.Queue.{Queue, send, receive, send_from_isr, send_resume, receive_resume, is_timeout}
use nimble_rtos.System.Frames.{
  Frame, Frame-refl, Frame-trans, requested-Frame, wake_waiter-Frame, wait_on-Frame,
  lock_wait-Frame, restore_priority-Frame,
}

pub remove_event_link-WellFormed :
    {live : ℕ → Bool} {k : Kernel}
    → WellFormed live k
    → (t : ℕ) → WellFormed live (remove_event_link t k)
unfolding remove_event_link
remove_event_link-WellFormed {live} {k} wf t = record {
  in_ready = wf.in_ready;
  bitmap = wf.bitmap;
  priority = wf.priority;
  in_delayed = wf.in_delayed;
  in_wait = λ w s h. ground (arith, wf.in_wait w s, mem-remove s t (k.wait_lists w));
  one_wait = λ v w s h g.
      ground (
        arith,
        wf.one_wait v w s,
        mem-remove s t (k.wait_lists v),
        mem-remove s t (k.wait_lists w),
      );
  runs = wf.runs;
  distinct_ready = wf.distinct_ready;
  distinct_delayed = wf.distinct_delayed;
  distinct_wait = λ w. distinct-remove t (k.wait_lists w) (wf.distinct_wait w);
}

-- A property of kernels holds after a second half if it holds after the removal of the link.
module _ (P : Kernel → Type 0) (self : ℕ) (k : Kernel) (as_is : P k)
    (unlinked : P (remove_event_link self k)) where
  pub lock_resume-holds : (m : Mutex) → P (lock_resume self m k).1
  unfolding lock_resume
  lock_resume-holds m = elim (Bool-cases (is_owner self m)) [
    | inl mine ↦ rw mine as_is
    | inr other ↦ rw other unlinked
  ]

  pub take_resume-holds : P (take_resume self k).1
  unfolding take_resume
  take_resume-holds = unlinked

  pub send_resume-holds : (item : List ℕ) (q : Queue) → P (send_resume self item q k).2
  unfolding send_resume
  send_resume-holds item q =
      elim (Bool-cases (is_timeout ((remove_event_link self k).tcbs self).last_wait_result)) [
        | inl late ↦ rw late unlinked
        | inr woken ↦ elim (Bool-cases (ltb q.count q.capacity)) [
          | inl room ↦ rw woken (rw room unlinked)
          | inr full ↦ rw woken (rw full unlinked)
        ]
      ]

  pub receive_resume-holds : (q : Queue) → P (receive_resume self q k).3
  unfolding receive_resume
  receive_resume-holds q =
      elim (Bool-cases (is_timeout ((remove_event_link self k).tcbs self).last_wait_result)) [
        | inl late ↦ rw late unlinked
        | inr woken ↦ elim (Bool-cases (ltb 0 q.count)) [
          | inl some_left ↦ rw woken (rw some_left unlinked)
          | inr nothing ↦ rw woken (rw nothing unlinked)
        ]
      ]

-- A property of kernels that a request for a switch keeps holds after the calls that wake a waiter.
module _ (P : Kernel → Type 0) (requests : (j : Kernel) → P j → P (request_context_switch j)) where
  pub given-holds : (s : Semaphore) (p : Option ℕ × Kernel) → P p.1 → P (given s p).2
  unfolding given
  given-holds s (none, j) h = h
  given-holds s (some t, j) h = requests j h

  pub given_from_isr-holds :
      (s : Semaphore) (p : Option ℕ × Kernel) → P p.1 → P (given_from_isr s p).3
  unfolding given_from_isr
  given_from_isr-holds s (none, j) h = h
  given_from_isr-holds s (some t, j) h = h

  pub hand_over-holds : (m : Mutex) (p : Option ℕ × Kernel) → P p.1 → P (hand_over m p).2
  unfolding hand_over
  hand_over-holds m (none, j) h = h
  hand_over-holds m (some t, j) h = requests j h

  pub notified-holds : (p : Option ℕ × Kernel) → P p.1 → P (request_if_woken p)
  unfolding request_if_woken
  notified-holds (none, j) h = h
  notified-holds (some t, j) h = requests j h

  pub send_from_isr-holds :
      (k : Kernel) (item : List ℕ) (q : Queue)
      → P k
      → P (wake_waiter q.receivers_waiting k).1
      → P (send_from_isr item q k).3
  unfolding send_from_isr
  send_from_isr-holds k item q as_is woken = elim (Bool-cases (leb q.capacity q.count)) [
    | inl full ↦ rw full as_is
    | inr room ↦ rw room woken
  ]

module _ (idle : ℕ) (k : Kernel) where
  requests : (j : Kernel) → Frame idle k j → Frame idle k (request_context_switch j)
  requests j f = requested-Frame f

  pub give-Frame : (s : Semaphore) → Frame idle k (give s k).2
  unfolding give
  give-Frame s =
      given-holds (Frame idle k) requests s (wake_waiter s.waiters k)
        (wake_waiter-Frame idle k s.waiters)

  pub give_from_isr-Frame : (s : Semaphore) → Frame idle k (give_from_isr s k).3
  unfolding give_from_isr
  give_from_isr-Frame s =
      given_from_isr-holds (Frame idle k) requests s (wake_waiter s.waiters k)
        (wake_waiter-Frame idle k s.waiters)

  pub send_from_isr-Frame : (item : List ℕ) (q : Queue) → Frame idle k (send_from_isr item q k).3
  send_from_isr-Frame item q =
      send_from_isr-holds (Frame idle k) requests k item q (Frame-refl idle k)
        (wake_waiter-Frame idle k q.receivers_waiting)

  pub unlock-Frame : (self : ℕ) (m : Mutex) → Frame idle k (unlock self m k).2
  unfolding unlock
  unlock-Frame self m = elim (Bool-cases (is_owner self m)) [
    | inr other ↦ rw other (Frame-refl idle k)
    | inl mine ↦ elim (Bool-cases (ltb 0 (sub32 m.lock_count 1))) [
      | inl more ↦ rw mine (rw more (Frame-refl idle k))
      | inr last ↦ rw mine (
          rw last (
            hand_over-holds (Frame idle k) requests m
              (wake_waiter m.waiters (restore_priority self k))
              (Frame-trans (restore_priority-Frame idle k self)
                (wake_waiter-Frame idle (restore_priority self k) m.waiters))))
    ]
  ]

  module _ (self : ℕ) (other : self ≢ idle) where
    pub take-Frame : (n : ℕ) (s : Semaphore) → Frame idle k (take self n s k).2
    unfolding take
    take-Frame n s = elim (Bool-cases (ltb 0 s.count)) [
      | inl some_left ↦ rw some_left (Frame-refl idle k)
      | inr nothing ↦ elim (Bool-cases (n == no_wait)) [
        | inl now ↦ rw nothing (rw now (Frame-refl idle k))
        | inr later ↦ rw nothing (rw later (wait_on-Frame idle k self other s.waiters n))
      ]
    ]

    pub send-Frame : (n : ℕ) (item : List ℕ) (q : Queue) → Frame idle k (send self n item q k).2
    unfolding send
    send-Frame n item q = elim (Bool-cases (ltb q.count q.capacity)) [
      | inl room ↦ rw room (
          notified-holds (Frame idle k) requests (wake_waiter q.receivers_waiting k)
            (wake_waiter-Frame idle k q.receivers_waiting))
      | inr full ↦ elim (Bool-cases (n == no_wait)) [
        | inl now ↦ rw full (rw now (Frame-refl idle k))
        | inr later ↦ rw full (rw later (wait_on-Frame idle k self other q.senders_waiting n))
      ]
    ]

    pub receive-Frame : (n : ℕ) (q : Queue) → Frame idle k (receive self n q k).3
    unfolding receive
    receive-Frame n q = elim (Bool-cases (ltb 0 q.count)) [
      | inl some_left ↦ rw some_left (
          notified-holds (Frame idle k) requests (wake_waiter q.senders_waiting k)
            (wake_waiter-Frame idle k q.senders_waiting))
      | inr nothing ↦ elim (Bool-cases (n == no_wait)) [
        | inl now ↦ rw nothing (rw now (Frame-refl idle k))
        | inr later ↦ rw nothing (rw later (wait_on-Frame idle k self other q.receivers_waiting n))
      ]
    ]

    pub lock-Frame : (n : ℕ) (m : Mutex) → Frame idle k (lock self n m k).2
    unfolding lock
    lock-Frame n m = elim (Option-cases m.owner) [
      | inl free ↦ rw free (Frame-refl idle k)
      | inr (o, held) ↦ elim (Bool-cases (o == self)) [
        | inl mine ↦ rw held (rw mine (Frame-refl idle k))
        | inr not_mine ↦ elim (Bool-cases (n == no_wait)) [
          | inl now ↦ rw held (rw not_mine (rw now (Frame-refl idle k)))
          | inr later ↦ rw held (rw not_mine (rw later (lock_wait-Frame idle k self other o n m)))
        ]
      ]
    ]
