-- ===== src/Examples/Messages.antt =====
-- Runs of the queue and the semaphore.
use nimble_rtos.Common.{◌≡◌, refl, false, some, [], ◌∷◌, ◌++◌, arith, if◌then◌else◌}
use nimble_rtos.Kernel.{Kernel, ok, no_wait}
use nimble_rtos.Scheduler.{add_ready, prepare_block, request_context_switch}
use nimble_rtos.Waiters.{returned, wait_on, insert_waiter_priority_sorted, insert_sorted}
use nimble_rtos.Waiters.Sorted.{is_sorted}
use nimble_rtos.Queue.{
  Queue, copy_in, copy_out, send, receive, send_from_isr, send_resume, receive_resume,
}
use nimble_rtos.Queue.Fifo.{contents, QueueValid}
use nimble_rtos.Queue.Refine.{copy_in-contents, copy_out-contents, CopiesInside}
use nimble_rtos.Queue.Calls.{
  SendStep, ReceiveStep, send-SendStep, receive-ReceiveStep, QueueValid-kept, send-from_isr,
}
use nimble_rtos.Queue.Resumed.{OthersAsleep, send_resume-OthersAsleep, receive_resume-OthersAsleep}
use nimble_rtos.Semaphore.{Semaphore, give, give_from_isr}
use nimble_rtos.Semaphore.Invariant.{SemaphoreValid, take-SemaphoreValid, SemaphoreValid-kept}
use nimble_rtos.Semaphore.Giving.{HandedTo, give-HandedTo}
use nimble_rtos.Examples.{busy}

-- Two items of two bytes, the oldest in the last slot.
abbrev one_item : Queue
one_item = record {
  buffer = 0 ∷ 0 ∷ 30 ∷ 40 ∷ [];
  item_size = 2;
  capacity = 2;
  count = 1;
  head = 1;
  tail = 0;
  receivers_waiting = 21;
  senders_waiting = 22;
}

one_item-QueueValid : QueueValid one_item
one_item-QueueValid = record {
  not_empty = omega arith;
  few = omega arith;
  within = omega arith;
  head_in = omega arith;
  tail_at = refl;
  sized = refl;
  addressable = omega arith;
}

copy_in-contents_example :
    contents (copy_in (5 ∷ 6 ∷ 7 ∷ []) one_item) ≡ contents one_item ++ (5 ∷ 6 ∷ []) ∷ []
copy_in-contents_example =
    copy_in-contents one_item-QueueValid (5 ∷ 6 ∷ 7 ∷ []) (omega arith) (omega arith)

copy_out-contents_example :
    contents one_item ≡ (copy_out one_item).0 ∷ contents (copy_out one_item).1
copy_out-contents_example = copy_out-contents one_item-QueueValid (omega arith)

send-SendStep_example :
    let r = send 3 5 (5 ∷ 6 ∷ []) one_item busy in
    SendStep 2 false (5 ∷ 6 ∷ []) (contents one_item) r.0 (contents r.1)
send-SendStep_example = send-SendStep one_item-QueueValid busy 3 5 (5 ∷ 6 ∷ []) (omega arith)

receive-ReceiveStep_example :
    let r = receive 3 5 one_item busy in
    ReceiveStep false (contents one_item) r.0 r.1 (contents r.2)
receive-ReceiveStep_example = receive-ReceiveStep one_item-QueueValid busy 3 5

QueueValid-kept_example :
    QueueValid (send 3 5 (5 ∷ 6 ∷ []) one_item busy).1
    × QueueValid (receive 3 5 one_item busy).2
    × CopiesInside one_item
QueueValid-kept_example = QueueValid-kept one_item-QueueValid busy 3 5 (5 ∷ 6 ∷ []) (omega arith)

send-from_isr_example :
    let r = send_from_isr (5 ∷ 6 ∷ []) one_item busy in
    send 3 no_wait (5 ∷ 6 ∷ []) one_item busy
    ≡ (returned r.0, r.2, if r.1 then request_context_switch r.3 else r.3)
send-from_isr_example = send-from_isr 3 (5 ∷ 6 ∷ []) one_item busy

-- The queue drained, and task 3 waiting to receive.
abbrev drained : Queue
drained = record one_item { count = 0; head = 0 }

drained-QueueValid : QueueValid drained
drained-QueueValid = record {
  not_empty = omega arith;
  few = omega arith;
  within = omega arith;
  head_in = omega arith;
  tail_at = refl;
  sized = refl;
  addressable = omega arith;
}

abbrev starving : Kernel
starving = (receive 3 5 drained busy).3

send_resume-OthersAsleep_example :
    let r = send_resume 1 (5 ∷ 6 ∷ []) drained starving in
    (r.0 ≡ ok)
    × (contents r.1 ≡ contents drained ++ (5 ∷ 6 ∷ []) ∷ [])
    × OthersAsleep 21 1 starving r.2
unfolding receive wait_on prepare_block insert_waiter_priority_sorted add_ready
send_resume-OthersAsleep_example =
    send_resume-OthersAsleep drained-QueueValid starving 1 (5 ∷ 6 ∷ []) (omega arith) (omega arith)
      refl

-- The receiver is in the list of the receivers, as the example above leaves it.
starving_lists : starving.wait_lists 21 ≡ 3 ∷ []
unfolding receive wait_on prepare_block insert_waiter_priority_sorted insert_sorted add_ready
starving_lists = refl

receive_resume-OthersAsleep_example :
    let r = receive_resume 1 one_item busy in
    (r.0 ≡ ok)
    × (r.1 ≡ some (copy_out one_item).0)
    × (contents one_item ≡ (copy_out one_item).0 ∷ contents r.2)
    × OthersAsleep 22 1 busy r.3
unfolding add_ready
receive_resume-OthersAsleep_example =
    receive_resume-OthersAsleep one_item-QueueValid busy 1 (omega arith) refl

-- A binary semaphore with nothing to take.
abbrev taken : Semaphore
taken = record { count = 0; max_count = 1; waiters = 31 }

taken-SemaphoreValid : SemaphoreValid taken busy
unfolding add_ready is_sorted
taken-SemaphoreValid = record {
  bounded = omega arith;
  fits = omega arith;
  unit_or_waiter = λ h. refl;
  ordered = refl;
}

-- Task 3 waits for it.
abbrev waiting : Kernel
waiting = (nimble_rtos.Semaphore.take 3 5 taken busy).2

waiting-SemaphoreValid : SemaphoreValid taken waiting
unfolding nimble_rtos.Semaphore.take
waiting-SemaphoreValid = take-SemaphoreValid taken-SemaphoreValid 3 5

SemaphoreValid-kept_example :
    (let r = nimble_rtos.Semaphore.take 3 5 taken waiting in SemaphoreValid r.1 r.2)
    × (let r = give taken waiting in SemaphoreValid r.1 r.2)
SemaphoreValid-kept_example = SemaphoreValid-kept waiting-SemaphoreValid 3 5

give-HandedTo_example : HandedTo taken waiting 3 (give taken waiting)
unfolding nimble_rtos.Semaphore.take add_ready wait_on prepare_block insert_waiter_priority_sorted
give-HandedTo_example = give-HandedTo waiting-SemaphoreValid 3 refl
