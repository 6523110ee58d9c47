-- ===== src/Queue/Refine.antt =====
-- kernel/src/queue.c: `copy_in` and `copy_out` on the items that the ring holds.
use nimble_rtos.Common.{
  ℕ, zero, suc, ◌+◌, ◌*◌, ◌<◌, ◌≤◌, ◌≡◌, refl, List, [], ◌∷◌, ◌++◌, arith, length, ap, ◌∙◌, sym,
  take,
}
use nimble_rtos.Common.Words.{add32, sub32}
use nimble_rtos.Queue.{Queue, write_bytes, read_bytes, copy_in, copy_out, mul32}
use nimble_rtos.Queue.Bytes.{read-write_same, slot_inside, length-write_bytes}
use nimble_rtos.Queue.Fifo.{
  ahead, ahead_in, slot, items, items-snoc, items-write, contents, QueueValid, next_slot,
}

length-take : (n : ℕ) (xs : List ℕ) → n ≤ length xs → length (take n xs) ≡ n
length-take zero xs h = refl
length-take (suc n) [] h = absurd (omega arith)
length-take (suc n) (x ∷ xs) h = ap suc (length-take n xs (omega arith))

module _ {q : Queue} (v : QueueValid q) where
  offset : (i : ℕ) → i < q.capacity → mul32 i q.item_size ≡ i * q.item_size
  offset i h = omega (arith, slot_inside i q.capacity q.item_size h, v.addressable)

  module _ (item : List ℕ) (enough : q.item_size ≤ length item) (room : q.count < q.capacity) where
    tail_in : q.tail < q.capacity
    tail_in = ground (arith, v.tail_at, ahead_in q.capacity q.head q.count, v.head_in)

    abbrev taken : List ℕ
    taken = take q.item_size item

    abbrev after : Queue
    after = copy_in item q

    after_buffer :
        after.buffer ≡ write_bytes taken (ahead q.capacity q.head q.count * q.item_size) q.buffer
    unfolding copy_in
    after_buffer =
        ap (λ off. write_bytes taken off q.buffer)
          (offset q.tail tail_in ∙ ap (λ (i : ℕ). i * q.item_size) v.tail_at)

    after_count : after.count ≡ suc q.count
    unfolding copy_in add32
    after_count = omega (arith, v.few)

    after_tail : after.tail ≡ ahead q.capacity q.head (suc q.count)
    unfolding copy_in
    after_tail = next_slot q.capacity q.tail tail_in v.few ∙ ground (arith, v.tail_at, v.head_in)

    after-contents :
        contents after
        ≡ items q.capacity q.item_size
            (write_bytes taken (ahead q.capacity q.head q.count * q.item_size) q.buffer)
            (suc q.count)
            q.head
    unfolding copy_in
    after-contents =
        ap (λ b. items q.capacity q.item_size b after.count q.head) after_buffer
        ∙ ap
            (λ n.
              items q.capacity q.item_size
                (write_bytes taken (ahead q.capacity q.head q.count * q.item_size) q.buffer) n
                q.head)
            after_count

    written :
        slot q.item_size
          (ahead q.capacity q.head q.count)
          (write_bytes taken (ahead q.capacity q.head q.count * q.item_size) q.buffer)
        ≡ taken
    written =
        let at = ahead q.capacity q.head q.count in
        let fits =
          slot_inside at q.capacity q.item_size
            (ahead_in q.capacity q.head q.count v.head_in v.within) in
        let size = length-take q.item_size item enough in
        let same =
          read-write_same taken (at * q.item_size) q.buffer (omega (arith, fits, v.sized, size)) in
        rw size at same

    pub copy_in-contents : contents (copy_in item q) ≡ contents q ++ taken ∷ []
    copy_in-contents =
        let at = ahead q.capacity q.head q.count in
        let size = length-take q.item_size item enough in
        after-contents
        ∙ items-snoc q.capacity q.item_size (write_bytes taken (at * q.item_size) q.buffer) q.count
            q.head v.head_in room
        ∙ ap
            (λ (zs : List (List ℕ)).
              zs ++ slot q.item_size at (write_bytes taken (at * q.item_size) q.buffer) ∷ [])
            (items-write q.capacity q.item_size taken q.buffer q.count q.head size v.head_in room)
        ∙ ap (λ z. contents q ++ z ∷ []) written

    pub copy_in-QueueValid : QueueValid (copy_in item q)
    unfolding copy_in
    copy_in-QueueValid = record {
      not_empty = v.not_empty;
      few = v.few;
      within = omega (arith, after_count);
      head_in = v.head_in;
      tail_at = after_tail ∙ ap (λ n. ahead q.capacity q.head n) (sym after_count);
      sized = length-write_bytes taken (mul32 q.tail q.item_size) q.buffer ∙ v.sized;
      addressable = v.addressable;
    }

  module _ (some_item : 0 < q.count) where
    abbrev rest : Queue
    rest = (copy_out q).1

    left_count : suc rest.count ≡ q.count
    unfolding copy_out sub32
    left_count = omega (arith, v.few, v.within)

    left_head : rest.head ≡ ahead q.capacity q.head 1
    unfolding copy_out
    left_head = next_slot q.capacity q.head v.head_in v.few

    pub copy_out-contents : contents q ≡ (copy_out q).0 ∷ contents rest
    unfolding copy_out items
    copy_out-contents =
        ap (λ n. items q.capacity q.item_size q.buffer n q.head) (sym left_count)
        ∙ ap
            (λ off.
              read_bytes q.item_size off q.buffer
              ∷ items q.capacity q.item_size q.buffer rest.count (ahead q.capacity q.head 1))
            (sym (offset q.head v.head_in))
        ∙ ap (λ i. (copy_out q).0 ∷ items q.capacity q.item_size q.buffer rest.count i)
            (sym left_head)

    pub copy_out-QueueValid : QueueValid rest
    unfolding copy_out
    copy_out-QueueValid = record {
      not_empty = v.not_empty;
      few = v.few;
      within = omega (arith, left_count, v.within);
      head_in = ground (arith, left_head, v.head_in, v.within, v.not_empty);
      tail_at = ground (arith, v.tail_at, left_count, left_head, v.head_in, v.within, v.not_empty);
      sized = v.sized;
      addressable = v.addressable;
    }

-- Where `copy_in` and `copy_out` begin, and the bytes that they touch: all inside the buffer.
abbrev pub CopiesInside : Queue → Type 0
CopiesInside q =
    (mul32 q.tail q.item_size + q.item_size ≤ length q.buffer)
    × (mul32 q.head q.item_size + q.item_size ≤ length q.buffer)

pub QueueValid-CopiesInside : {q : Queue} → QueueValid q → CopiesInside q
QueueValid-CopiesInside {q} v =
    let tail : q.tail < q.capacity =
      ground (arith, v.tail_at, ahead_in q.capacity q.head q.count v.head_in v.within) in
    (inside q.tail tail, inside q.head v.head_in)
  where
    inside : (i : ℕ) → i < q.capacity → mul32 i q.item_size + q.item_size ≤ length q.buffer
    inside i h = omega (arith, offset v i h, slot_inside i q.capacity q.item_size h, v.sized)
