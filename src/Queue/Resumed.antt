-- ===== src/Queue/Resumed.antt =====
-- kernel/src/queue.c: the second half of a call that waited, and the other tasks that wait.
use nimble_rtos.Common.{
  ℕ, ◌<◌, ◌≤◌, ◌≡◌, refl, true, false, some, List, [], ◌∷◌, ◌++◌, ◌==◌, arith, ltb, length, take,
}
use nimble_rtos.Common.Tids.{mem, mem-remove}
use nimble_rtos.Kernel.{ok, Kernel}
use nimble_rtos.Scheduler.{remove_event_link}
use nimble_rtos.Queue.{Queue, copy_out, is_timeout, send_resume, receive_resume}
use nimble_rtos.Queue.Fifo.{contents, QueueValid}
use nimble_rtos.Queue.Refine.{copy_in-contents, copy_out-contents}

-- What is left of the tasks that wait in list `w` when `self` goes.
pub record OthersAsleep (w self : ℕ) (k k' : Kernel) : Type 0 where
  pub still_listed :
      (t : ℕ) → (t == self) ≡ false → mem t (k'.wait_lists w) ≡ mem t (k.wait_lists w)
  pub same_task : (t : ℕ) → k'.tcbs t ≡ k.tcbs t
  pub same_ready : (p : ℕ) → k'.ready_lists p ≡ k.ready_lists p
  pub no_switch : k'.pendsv_pending ≡ k.pendsv_pending

event_link-OthersAsleep :
    (w self : ℕ) (k : Kernel) → OthersAsleep w self k (remove_event_link self k)
unfolding remove_event_link
event_link-OthersAsleep w self k = record {
  still_listed = λ t other. ground (arith, mem-remove t self (k.wait_lists w));
  same_task = λ t. refl;
  same_ready = λ p. refl;
  no_switch = refl;
}

module _ {q : Queue} (v : QueueValid q) (k : Kernel) (self : ℕ) where
  -- A sender that resumes without a timeout while the valid queue has room puts its item, of at
  -- least the bytes of a slot, in and returns OK, but wakes no one: every other task that waits to
  -- receive stays in its list with its TCB unchanged, and no switch is requested.
  pub send_resume-OthersAsleep :
      (item : List ℕ)
      → q.item_size ≤ length item
      → q.count < q.capacity
      → is_timeout (k.tcbs self).last_wait_result ≡ false
      → let r = send_resume self item q k in
        (r.0 ≡ ok)
        × (contents r.1 ≡ contents q ++ take q.item_size item ∷ [])
        × OthersAsleep q.receivers_waiting self k r.2
  unfolding send_resume remove_event_link
  send_resume-OthersAsleep item enough room woken =
      let r : ltb q.count q.capacity ≡ true = ground arith in
      rw woken (
        rw r (
          refl,
          copy_in-contents v item enough room,
          event_link-OthersAsleep q.receivers_waiting self k,
        ))

  -- A receiver that resumes without a timeout while the valid queue has an item takes the oldest
  -- one and returns OK, but wakes no one: every other task that waits to send stays in its list
  -- with its TCB unchanged, and no switch is requested.
  pub receive_resume-OthersAsleep :
      0 < q.count
      → is_timeout (k.tcbs self).last_wait_result ≡ false
      → let r = receive_resume self q k in
        (r.0 ≡ ok)
        × (r.1 ≡ some (copy_out q).0)
        × (contents q ≡ (copy_out q).0 ∷ contents r.2)
        × OthersAsleep q.senders_waiting self k r.3
  unfolding receive_resume remove_event_link
  receive_resume-OthersAsleep some_item woken =
      let r : ltb 0 q.count ≡ true = ground arith in
      rw woken (
        rw r (
          refl,
          refl,
          copy_out-contents v some_item,
          event_link-OthersAsleep q.senders_waiting self k,
        ))
