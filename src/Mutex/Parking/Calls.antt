-- ===== src/Mutex/Parking/Calls.antt =====
-- kernel/src: the calls on other objects leave the tasks parked on a list there.
use nimble_rtos.Common.{
  ℕ, ◌≡◌, true, false, List, ◌==◌, ltb, arith, Bool-cases, Option-cases, inl, inr, head?,
}
use nimble_rtos.Common.Tids.{mem, remove, mem-remove, mem-snoc, mem_of_head}
use nimble_rtos.Kernel.{Kernel, ok, is_running, wait_forever, no_wait}
use nimble_rtos.Scheduler.{
  wake_waiter, prepare_block, block_current_delay, remove_event_link, request_context_switch,
  scheduler_remove,
}
use nimble_rtos.Scheduler.Waking.{wake_waiter-none, wake_waiter-some}
use nimble_rtos.Waiters.{wait_on, insert_waiter_priority_sorted, priority_of}
use nimble_rtos.Waiters.Sorted.{mem-insert_sorted}
use nimble_rtos.Task.{delay_task}
use nimble_rtos.Semaphore.{Semaphore, take, take_resume, give, give_from_isr}
use nimble_rtos.Queue.{Queue, send, receive, send_from_isr, send_resume, receive_resume}
use nimble_rtos.System.Calls.{
  take_resume-holds, send_resume-holds, receive_resume-holds, given-holds, given_from_isr-holds,
  notified-holds, send_from_isr-holds,
}
use nimble_rtos.Mutex.Parking.{
  Linked, Parked, Quiet, Quiet-trans, Quiet-refl, requested-Quiet, wake-Quiet,
}

module _ (w : ℕ) {k : Kernel} (l : Linked k) where
  pub wake_waiter-Quiet : (v : ℕ) → (v == w) ≡ false → Quiet w k (wake_waiter v k).1
  wake_waiter-Quiet v other = elim (Option-cases (head? (k.wait_lists v))) [
    | inl nobody ↦ rw (wake_waiter-none v k nobody) (Quiet-refl w l)
    | inr (s, first) ↦ rw (wake_waiter-some v s k first) (
        wake-Quiet w l s ok
          (λ t h. ground (arith, h.only_here v other, mem_of_head s (k.wait_lists v) first)))
  ]

  requests : (j : Kernel) → Quiet w k j → Quiet w k (request_context_switch j)
  requests j q = Quiet-trans q (requested-Quiet w q.linked)

  -- The caller runs, so that it is parked nowhere.
  module _ (self : ℕ) (runs : is_running (k.tcbs self).state ≡ true) where
    pub unlinked-Quiet : Quiet w k (remove_event_link self k)
    unfolding remove_event_link
    unlinked-Quiet = record {
      linked = record {
        in_ready = l.in_ready;
        in_wait = λ v t h. ground (arith, l.in_wait v t, mem-remove t self (k.wait_lists v));
      };
      parked = λ t h. record {
        off = h.off;
        listed = ground (arith, h.off, h.listed, mem-remove t self (k.wait_lists w));
        only_here = λ v d. ground (arith, h.only_here v d, mem-remove t self (k.wait_lists v));
        untimed = h.untimed;
      };
      waiters = λ t h. ground (arith, mem-remove t self (k.wait_lists w));
    }

    pub wait_on-Linked : (v n : ℕ) → Linked (wait_on v n self k)
    unfolding wait_on prepare_block insert_waiter_priority_sorted scheduler_remove
    wait_on-Linked v n = record {
      in_ready = λ p t h. ground (arith, l.in_ready p t, mem-remove t self (k.ready_lists p));
      in_wait = λ u t h.
          ground (arith, l.in_wait u t, mem-insert_sorted (priority_of k) t self (k.wait_lists v));
    }

    pub wait_on-Parked : (v n t : ℕ) → Parked w t k → Parked w t (wait_on v n self k)
    unfolding wait_on prepare_block insert_waiter_priority_sorted scheduler_remove
    wait_on-Parked v n t h = record {
      off = ground (arith, h.off);
      listed =
          ground
            (arith, h.off, h.listed, mem-insert_sorted (priority_of k) t self (k.wait_lists v));
      only_here = λ u d. ground (
        arith,
        h.off,
        h.only_here u d,
        mem-insert_sorted (priority_of k) t self (k.wait_lists v),
      );
      untimed = ground (
        arith,
        h.off,
        h.untimed,
        mem-remove t self k.delayed_list,
        mem-snoc t (remove self k.delayed_list) self,
      );
    }

    -- The caller itself is parked, if it waits here without a timeout.
    pub wait_on-parks : Parked w self (wait_on w wait_forever self k)
    unfolding wait_on prepare_block insert_waiter_priority_sorted scheduler_remove
    wait_on-parks = record {
      off = ground arith;
      listed = ground (arith, mem-insert_sorted (priority_of k) self self (k.wait_lists w));
      only_here = λ v d. ground (arith, l.in_wait v self);
      untimed = ground (arith, mem-remove self self k.delayed_list);
    }

    pub wait_on_waiters :
        (n t : ℕ)
        → (self == t) ≡ false
        → mem t ((wait_on w n self k).wait_lists w) ≡ true
        → mem t (k.wait_lists w) ≡ true
    unfolding wait_on prepare_block insert_waiter_priority_sorted scheduler_remove
    wait_on_waiters n t other h =
        ground (arith, mem-insert_sorted (priority_of k) t self (k.wait_lists w))

    wait_on-Quiet : (v n : ℕ) → (v == w) ≡ false → Quiet w k (wait_on v n self k)
    unfolding wait_on prepare_block insert_waiter_priority_sorted scheduler_remove
    wait_on-Quiet v n other = record {
      linked = wait_on-Linked v n;
      parked = λ t h. wait_on-Parked v n t h;
      waiters = λ t h. ground arith;
    }

    pub delay_task-Quiet : (n : ℕ) → Quiet w k (delay_task self n k)
    unfolding delay_task block_current_delay scheduler_remove
    delay_task-Quiet n = record {
      linked = record {
        in_ready = λ p t h. ground (arith, l.in_ready p t, mem-remove t self (k.ready_lists p));
        in_wait = λ v t h. ground (arith, l.in_wait v t);
      };
      parked = λ t h. record {
        off = ground (arith, h.off);
        listed = h.listed;
        only_here = h.only_here;
        untimed = ground (
          arith,
          h.off,
          h.untimed,
          mem-remove t self k.delayed_list,
          mem-snoc t (remove self k.delayed_list) self,
        );
      };
      waiters = λ t h. h;
    }

    pub take_resume-Quiet : Quiet w k (take_resume self k).1
    take_resume-Quiet = take_resume-holds (Quiet w k) self k (Quiet-refl w l) unlinked-Quiet

    pub send_resume-Quiet : (item : List ℕ) (q : Queue) → Quiet w k (send_resume self item q k).2
    send_resume-Quiet item q =
        send_resume-holds (Quiet w k) self k (Quiet-refl w l) unlinked-Quiet item q

    pub receive_resume-Quiet : (q : Queue) → Quiet w k (receive_resume self q k).3
    receive_resume-Quiet q =
        receive_resume-holds (Quiet w k) self k (Quiet-refl w l) unlinked-Quiet q

    pub take-Quiet :
        (n : ℕ) (s : Semaphore) → (s.waiters == w) ≡ false → Quiet w k (take self n s k).2
    unfolding take
    take-Quiet n s other = elim (Bool-cases (ltb 0 s.count)) [
      | inl some_left ↦ rw some_left (Quiet-refl w l)
      | inr nothing ↦ elim (Bool-cases (n == no_wait)) [
        | inl now ↦ rw nothing (rw now (Quiet-refl w l))
        | inr later ↦ rw nothing (rw later (wait_on-Quiet s.waiters n other))
      ]
    ]

    pub send-Quiet :
        (n : ℕ) (item : List ℕ) (q : Queue)
        → (q.receivers_waiting == w) ≡ false
        → (q.senders_waiting == w) ≡ false
        → Quiet w k (send self n item q k).2
    unfolding send
    send-Quiet n item q receivers senders = elim (Bool-cases (ltb q.count q.capacity)) [
      | inl room ↦ rw room (
          notified-holds (Quiet w k) requests (wake_waiter q.receivers_waiting k)
            (wake_waiter-Quiet q.receivers_waiting receivers))
      | inr full ↦ elim (Bool-cases (n == no_wait)) [
        | inl now ↦ rw full (rw now (Quiet-refl w l))
        | inr later ↦ rw full (rw later (wait_on-Quiet q.senders_waiting n senders))
      ]
    ]

    pub receive-Quiet :
        (n : ℕ) (q : Queue)
        → (q.receivers_waiting == w) ≡ false
        → (q.senders_waiting == w) ≡ false
        → Quiet w k (receive self n q k).3
    unfolding receive
    receive-Quiet n q receivers senders = elim (Bool-cases (ltb 0 q.count)) [
      | inl some_left ↦ rw some_left (
          notified-holds (Quiet w k) requests (wake_waiter q.senders_waiting k)
            (wake_waiter-Quiet q.senders_waiting senders))
      | inr nothing ↦ elim (Bool-cases (n == no_wait)) [
        | inl now ↦ rw nothing (rw now (Quiet-refl w l))
        | inr later ↦ rw nothing (rw later (wait_on-Quiet q.receivers_waiting n receivers))
      ]
    ]

  pub give-Quiet : (s : Semaphore) → (s.waiters == w) ≡ false → Quiet w k (give s k).2
  unfolding give
  give-Quiet s other =
      given-holds (Quiet w k) requests s (wake_waiter s.waiters k)
        (wake_waiter-Quiet s.waiters other)

  pub give_from_isr-Quiet :
      (s : Semaphore) → (s.waiters == w) ≡ false → Quiet w k (give_from_isr s k).3
  unfolding give_from_isr
  give_from_isr-Quiet s other =
      given_from_isr-holds (Quiet w k) requests s (wake_waiter s.waiters k)
        (wake_waiter-Quiet s.waiters other)

  pub send_from_isr-Quiet :
      (item : List ℕ) (q : Queue)
      → (q.receivers_waiting == w) ≡ false
      → Quiet w k (send_from_isr item q k).3
  send_from_isr-Quiet item q other =
      send_from_isr-holds (Quiet w k) requests k item q (Quiet-refl w l)
        (wake_waiter-Quiet q.receivers_waiting other)
