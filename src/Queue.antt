-- ===== src/Queue.antt =====
-- kernel/src/queue.c: the blocking queue over a ring of bytes. `send` and `receive` are the parts up
-- to the context switch, `send_resume` and `receive_resume` the parts behind it.
pub mod Bytes
pub mod Fifo
pub mod Refine
pub mod Calls
pub mod Resumed
use nimble_rtos.Common.{
  ℕ, zero, suc, ◌+◌, ◌*◌, ◌%◌, Option, none, some, Bool, true, false, List, [], ◌∷◌, ◌==◌, ltb, leb,
  if◌then◌else◌, update, set, take,
}
use nimble_rtos.Common.Words.{add32, sub32, word}
use nimble_rtos.Kernel.{Status, ok, err_timeout, err_full, err_empty, Kernel, no_wait}
use nimble_rtos.Scheduler.{wake_waiter, remove_event_link, request_context_switch}
use nimble_rtos.Waiters.{Outcome, returned, waits, wait_on, request_if_woken}

-- `buffer` is the caller's array of bytes, `head` the slot to read next, `tail` the slot to write.
pub record Queue : Type 0 where
  pub buffer : List ℕ
  pub item_size : ℕ
  pub capacity : ℕ
  pub count : ℕ
  pub head : ℕ
  pub tail : ℕ
  pub receivers_waiting : ℕ
  pub senders_waiting : ℕ

unfoldable pub queue_init : List ℕ → ℕ → ℕ → ℕ → ℕ → Kernel → Queue × Kernel
queue_init buffer item_size capacity receivers senders k = (
  record {
    buffer = buffer;
    item_size = item_size;
    capacity = capacity;
    count = 0;
    head = 0;
    tail = 0;
    receivers_waiting = receivers;
    senders_waiting = senders;
  },
  record k { wait_lists = update (update k.wait_lists receivers []) senders [] },
)

abbrev pub byte_at : List ℕ → ℕ → ℕ
byte_at [] i = 0
byte_at (b ∷ bs) zero = b
byte_at (b ∷ bs) (suc i) = byte_at bs i

-- `memcpy` into the buffer from offset `off`, and out of it.
unfoldable pub write_bytes : List ℕ → ℕ → List ℕ → List ℕ
write_bytes [] off buffer = buffer
write_bytes (b ∷ bs) off buffer = write_bytes bs (off + 1) (set buffer off b)

unfoldable pub read_bytes : ℕ → ℕ → List ℕ → List ℕ
read_bytes zero off buffer = []
read_bytes (suc n) off buffer = byte_at buffer off ∷ read_bytes n (off + 1) buffer

abbrev pub mul32 : ℕ → ℕ → ℕ
mul32 a b = a * b % word

-- `item` is the memory from the caller's pointer on.
unfoldable pub copy_in : List ℕ → Queue → Queue
unfolding write_bytes
copy_in item queue = record queue {
  buffer = write_bytes (take queue.item_size item) (mul32 queue.tail queue.item_size) queue.buffer;
  tail = add32 queue.tail 1 % queue.capacity;
  count = add32 queue.count 1;
}

unfoldable pub copy_out : Queue → List ℕ × Queue
unfolding read_bytes
copy_out queue = (
  read_bytes queue.item_size (mul32 queue.head queue.item_size) queue.buffer,
  record queue { head = add32 queue.head 1 % queue.capacity; count = sub32 queue.count 1 },
)

-- `nimble_queue_send` of the running task `self`, up to the context switch.
unfoldable pub send : ℕ → ℕ → List ℕ → Queue → Kernel → Outcome × Queue × Kernel
send self timeout_ticks item queue k =
    if ltb queue.count queue.capacity
    then (returned ok, copy_in item queue, request_if_woken (wake_waiter queue.receivers_waiting k))
    else if timeout_ticks == no_wait
    then (returned err_full, queue, k)
    else (waits, queue, wait_on queue.senders_waiting timeout_ticks self k)

abbrev pub is_timeout : Status → Bool
is_timeout err_timeout = true
is_timeout _ = false

-- The rest of `nimble_queue_send`, when the task runs again.
unfoldable pub send_resume : ℕ → List ℕ → Queue → Kernel → Status × Queue × Kernel
send_resume self item queue k =
    let k' = remove_event_link self k in
    if is_timeout (k'.tcbs self).last_wait_result
    then (err_timeout, queue, k')
    else if ltb queue.count queue.capacity
    then (ok, copy_in item queue, k')
    else (err_full, queue, k')

-- What comes through `out_item`: `none` where the code leaves it alone.
unfoldable pub receive : ℕ → ℕ → Queue → Kernel → Outcome × Option (List ℕ) × Queue × Kernel
receive self timeout_ticks queue k =
    if ltb 0 queue.count
    then (
      returned ok,
      some (copy_out queue).0,
      (copy_out queue).1,
      request_if_woken (wake_waiter queue.senders_waiting k),
    )
    else if timeout_ticks == no_wait
    then (returned err_empty, none, queue, k)
    else (waits, none, queue, wait_on queue.receivers_waiting timeout_ticks self k)

-- The rest of `nimble_queue_receive`, when the task runs again.
unfoldable pub receive_resume : ℕ → Queue → Kernel → Status × Option (List ℕ) × Queue × Kernel
receive_resume self queue k =
    let k' = remove_event_link self k in
    if is_timeout (k'.tcbs self).last_wait_result
    then (err_timeout, none, queue, k')
    else if ltb 0 queue.count
    then (ok, some (copy_out queue).0, (copy_out queue).1, k')
    else (err_empty, none, queue, k')

abbrev pub is_woken : Option ℕ → Bool
is_woken none = false
is_woken (some t) = true

-- The interrupt's version: `*needs_yield` in place of the request.
unfoldable pub send_from_isr : List ℕ → Queue → Kernel → Status × Bool × Queue × Kernel
send_from_isr item queue k =
    if leb queue.capacity queue.count
    then (err_full, false, queue, k)
    else (let (woken, k') = wake_waiter queue.receivers_waiting k in
        (ok, is_woken woken, copy_in item queue, k'))
