-- ===== src/Queue/Calls.antt =====
-- kernel/src/queue.c: the calls against a bounded first-in first-out queue.
use nimble_rtos.Common.{
  ℕ, zero, suc, ◌<◌, ◌≤◌, ◌≡◌, refl, Bool, true, false, Option, none, some, List, [], ◌∷◌, ◌++◌,
  ◌==◌, arith, Bool-cases, inl, inr, if◌then◌else◌, ltb, leb, length, ap, take,
}
use nimble_rtos.Kernel.{ok, err_full, err_empty, Kernel, no_wait, is_blocked}
use nimble_rtos.Scheduler.{wake_waiter, request_context_switch}
use nimble_rtos.Scheduler.Invariant.{WellFormed}
use nimble_rtos.Scheduler.Waking.{wake_waiter-WellFormed, requested-WellFormed}
use nimble_rtos.Waiters.{Outcome, returned, waits, request_if_woken}
use nimble_rtos.Waiters.Blocking.{wait_on-WellFormed}
use nimble_rtos.Queue.{Queue, copy_out, send, receive, send_from_isr, is_woken}
use nimble_rtos.Queue.Fifo.{contents, items, QueueValid, ahead}
use nimble_rtos.Queue.Refine.{
  CopiesInside, QueueValid-CopiesInside, copy_in-contents, copy_in-QueueValid, copy_out-contents,
  copy_out-QueueValid,
}

length-items : (cap size : ℕ) (buf : List ℕ) (n i : ℕ) → length (items cap size buf n i) ≡ n
unfolding items
length-items cap size buf zero i = refl
length-items cap size buf (suc n) i = ap suc (length-items cap size buf n (ahead cap i 1))

-- The bounded queue that the calls promise: the items, oldest first.
pub data SendStep (cap : ℕ) (now : Bool) (item : List ℕ) (zs : List (List ℕ))
    : Outcome → List (List ℕ) → Type 0 where
  sent : length zs < cap → SendStep cap now item zs (returned ok) (zs ++ item ∷ [])
  full : length zs ≡ cap → now ≡ true → SendStep cap now item zs (returned err_full) zs
  sender_waits : length zs ≡ cap → now ≡ false → SendStep cap now item zs waits zs

pub data ReceiveStep (now : Bool)
    : List (List ℕ) → Outcome → Option (List ℕ) → List (List ℕ) → Type 0 where
  received :
      (item : List ℕ) (zs : List (List ℕ))
      → ReceiveStep now (item ∷ zs) (returned ok) (some item) zs
  empty : now ≡ true → ReceiveStep now [] (returned err_empty) none []
  receiver_waits : now ≡ false → ReceiveStep now [] waits none []

nil_of_length : {A : Type 0} (zs : List A) → length zs ≡ 0 → zs ≡ []
nil_of_length [] e = refl
nil_of_length (z ∷ zs) e = absurd (omega arith)

module _ {q : Queue} (v : QueueValid q) (k : Kernel) where
  held : length (contents q) ≡ q.count
  held = length-items q.capacity q.item_size q.buffer q.count q.head

  -- Every outcome of `nimble_queue_send` on a valid queue, of an item with at least the bytes of a
  -- slot, is a step of a bounded first-in first-out queue: with room the item is appended; when
  -- full it is refused without a wait, else the caller waits, and the contents stay.
  pub send-SendStep :
      (self timeout_ticks : ℕ) (item : List ℕ)
      → q.item_size ≤ length item
      → let r = send self timeout_ticks item q k in
        SendStep q.capacity
          (timeout_ticks == no_wait)
          (take q.item_size item)
          (contents q)
          r.0
          (contents r.1)
  unfolding send
  send-SendStep self timeout item enough = elim (Bool-cases (ltb q.count q.capacity)) [
    | inl room ↦
        rw room (rw (copy_in-contents v item enough (ground arith)) (sent (ground (arith, held))))
    | inr no_room ↦
        let all : length (contents q) ≡ q.capacity = ground (arith, held, v.within) in
        elim (Bool-cases (timeout == no_wait)) [
          | inl now ↦ rw no_room (rw now (full all refl))
          | inr later ↦ rw no_room (rw later (sender_waits all refl))
        ]
  ]

  -- Every outcome of `nimble_queue_receive` on a valid queue is a step of a bounded first-in
  -- first-out queue: the oldest item is returned and removed; an empty queue refuses without a
  -- wait, else the caller waits.
  pub receive-ReceiveStep :
      (self timeout_ticks : ℕ)
      → let r = receive self timeout_ticks q k in
        ReceiveStep (timeout_ticks == no_wait) (contents q) r.0 r.1 (contents r.2)
  unfolding receive
  receive-ReceiveStep self timeout = elim (Bool-cases (ltb 0 q.count)) [
    | inl some_left ↦ rw some_left (
        rw (copy_out-contents v (ground arith)) (received (copy_out q).0 (contents (copy_out q).1)))
    | inr nothing ↦
        let none_left = nil_of_length (contents q) (ground (arith, held)) in
        elim (Bool-cases (timeout == no_wait)) [
          | inl now ↦ rw nothing (rw now (rw none_left (empty refl)))
          | inr later ↦ rw nothing (rw later (rw none_left (receiver_waits refl)))
        ]
  ]

  -- `nimble_queue_send` of an item with at least the bytes of a slot keeps the ring of bytes valid
  -- on every branch: the indices stay in range, the tail stays `count` slots after the head, and
  -- the buffer keeps its size.
  pub send-QueueValid :
      (self timeout_ticks : ℕ) (item : List ℕ)
      → q.item_size ≤ length item
      → QueueValid (send self timeout_ticks item q k).1
  unfolding send
  send-QueueValid self timeout item enough = elim (Bool-cases (ltb q.count q.capacity)) [
    | inl room ↦ rw room (copy_in-QueueValid v item enough (ground arith))
    | inr no_room ↦ elim (Bool-cases (timeout == no_wait)) [
      | inl now ↦ rw no_room (rw now v)
      | inr later ↦ rw no_room (rw later v)
    ]
  ]

  -- `nimble_queue_receive` keeps the ring of bytes valid on every branch.
  pub receive-QueueValid : (self timeout_ticks : ℕ) → QueueValid (receive self timeout_ticks q k).2
  unfolding receive
  receive-QueueValid self timeout = elim (Bool-cases (ltb 0 q.count)) [
    | inl some_left ↦ rw some_left (copy_out-QueueValid v (ground arith))
    | inr nothing ↦ elim (Bool-cases (timeout == no_wait)) [
      | inl now ↦ rw nothing (rw now v)
      | inr later ↦ rw nothing (rw later v)
    ]
  ]

  -- `nimble_queue_send` of an item with at least the bytes of a slot, and `nimble_queue_receive`,
  -- keep a valid ring of bytes valid on every branch: the indices stay in range, the tail stays
  -- `count` slots after the head, and the buffer keeps its size; and on a valid ring neither copy
  -- reaches beyond the buffer.
  pub QueueValid-kept :
      (self timeout_ticks : ℕ) (item : List ℕ)
      → q.item_size ≤ length item
      → QueueValid (send self timeout_ticks item q k).1
        × QueueValid (receive self timeout_ticks q k).2
        × CopiesInside q
  QueueValid-kept self timeout item enough = (
    send-QueueValid self timeout item enough,
    receive-QueueValid self timeout,
    QueueValid-CopiesInside v,
  )

woken_agrees :
    (p : Option ℕ × Kernel)
    → request_if_woken p ≡ (if is_woken p.0 then request_context_switch p.1 else p.1)
unfolding request_if_woken
woken_agrees (none, k) = refl
woken_agrees (some t, k) = refl

-- `nimble_queue_send` without waiting does what `nimble_queue_send_from_isr` does, followed by a
-- request for a switch if that reports `needs_yield`.
pub send-from_isr :
    (self : ℕ) (item : List ℕ) (q : Queue) (k : Kernel)
    → let r = send_from_isr item q k in
      send self no_wait item q k
      ≡ (returned r.0, r.2, if r.1 then request_context_switch r.3 else r.3)
unfolding send send_from_isr
send-from_isr self item q k = elim (Bool-cases (ltb q.count q.capacity)) [
  | inl room ↦
      let open_slot : leb q.capacity q.count ≡ false = ground arith in
      rw room (rw open_slot (rw (woken_agrees (wake_waiter q.receivers_waiting k)) refl))
  | inr no_room ↦
      let full_queue : leb q.capacity q.count ≡ true = ground arith in
      rw no_room (rw full_queue refl)
]

-- Neither a send nor a receive breaks the scheduler's structures.
module _ {live : ℕ → Bool} {k : Kernel} (wf : WellFormed live k) (q : Queue)
    (self timeout_ticks : ℕ) (l : live self ≡ true)
    (nb : is_blocked (k.tcbs self).state ≡ false) where
  notified-WellFormed :
      (p : Option ℕ × Kernel) → WellFormed live p.1 → WellFormed live (request_if_woken p)
  unfolding request_if_woken
  notified-WellFormed (none, j) w = w
  notified-WellFormed (some t, j) w = requested-WellFormed w

  -- `nimble_queue_send` by a task in use that is not blocked keeps the kernel well formed on every
  -- branch.
  pub send-WellFormed : (item : List ℕ) → WellFormed live (send self timeout_ticks item q k).2
  unfolding send
  send-WellFormed item = elim (Bool-cases (ltb q.count q.capacity)) [
    | inl room ↦ rw room (
        notified-WellFormed (wake_waiter q.receivers_waiting k)
          (wake_waiter-WellFormed wf q.receivers_waiting))
    | inr no_room ↦ elim (Bool-cases (timeout_ticks == no_wait)) [
      | inl now ↦ rw no_room (rw now wf)
      | inr later ↦
          rw no_room (rw later (wait_on-WellFormed wf self l nb q.senders_waiting timeout_ticks))
    ]
  ]

  -- `nimble_queue_receive` by a task in use that is not blocked keeps the kernel well formed on
  -- every branch.
  pub receive-WellFormed : WellFormed live (receive self timeout_ticks q k).3
  unfolding receive
  receive-WellFormed = elim (Bool-cases (ltb 0 q.count)) [
    | inl some_left ↦ rw some_left (
        notified-WellFormed (wake_waiter q.senders_waiting k)
          (wake_waiter-WellFormed wf q.senders_waiting))
    | inr nothing ↦ elim (Bool-cases (timeout_ticks == no_wait)) [
      | inl now ↦ rw nothing (rw now wf)
      | inr later ↦
          rw nothing (rw later (wait_on-WellFormed wf self l nb q.receivers_waiting timeout_ticks))
    ]
  ]
