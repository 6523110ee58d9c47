-- ===== src/Queue/Fifo.antt =====
-- kernel/src/queue.c: the items that the ring of bytes holds.
use nimble_rtos.Common.{
  ℕ, zero, suc, ◌+◌, ◌-◌, ◌*◌, ◌%◌, ◌<◌, ◌≤◌, ◌≡◌, ◌≢◌, refl, List, [], ◌∷◌, ◌++◌, arith,
  if◌then◌else◌, ltb, length, ap,
}
use nimble_rtos.Common.Words.{add32, word}
use nimble_rtos.Queue.{Queue, write_bytes, read_bytes}
use nimble_rtos.Queue.Bytes.{read-write_other, slots_apart}

-- The slot that lies `n` after slot `i` of `cap`.
abbrev pub ahead : ℕ → ℕ → ℕ → ℕ
ahead cap i n = if ltb (i + n) cap then i + n else i + n - cap

abbrev pub slot : ℕ → ℕ → List ℕ → List ℕ
slot size i buffer = read_bytes size (i * size) buffer

-- The `n` items from slot `i` on, oldest first.
unfoldable pub items : ℕ → ℕ → List ℕ → ℕ → ℕ → List (List ℕ)
items cap size buffer zero i = []
items cap size buffer (suc n) i = slot size i buffer ∷ items cap size buffer n (ahead cap i 1)

-- What the queue holds.
abbrev pub contents : Queue → List (List ℕ)
contents q = items q.capacity q.item_size q.buffer q.count q.head

pub record QueueValid (q : Queue) : Type 0 where
  pub not_empty : 0 < q.capacity
  pub few : q.capacity < word
  pub within : q.count ≤ q.capacity
  pub head_in : q.head < q.capacity
  pub tail_at : q.tail ≡ ahead q.capacity q.head q.count
  pub sized : length q.buffer ≡ q.capacity * q.item_size
  pub addressable : q.capacity * q.item_size < word

-- `(i + 1) % cap`
pub next_slot : (cap i : ℕ) → i < cap → cap < word → add32 i 1 % cap ≡ ahead cap i 1
unfolding add32
next_slot cap i h small = let e : (i + 1) % word ≡ i + 1 = omega arith in rw e (grind arith)

pub ahead_step :
    (cap i n : ℕ) → i < cap → suc n ≤ cap → ahead cap (ahead cap i 1) n ≡ ahead cap i (suc n)
ahead_step cap i n h room = ground arith

pub ahead_in : (cap i n : ℕ) → i < cap → n ≤ cap → ahead cap i n < cap
ahead_in cap i n h room = ground arith

ahead_ne : (cap i n : ℕ) → i < cap → suc n < cap → i ≢ ahead cap i (suc n)
ahead_ne cap i n h room = ground arith

slot-write :
    (size i j : ℕ) (item buffer : List ℕ)
    → length item ≡ size
    → i ≢ j
    → slot size i (write_bytes item (j * size) buffer) ≡ slot size i buffer
slot-write size i j item buffer e ne =
    read-write_other size (i * size) item (j * size) buffer (rw e (slots_apart i j size ne))

-- A write to the slot behind the last item does not touch the items.
pub items-write :
    (cap size : ℕ) (item buffer : List ℕ) (n i : ℕ)
    → length item ≡ size
    → i < cap
    → n < cap
    → items cap size (write_bytes item (ahead cap i n * size) buffer) n i
      ≡ items cap size buffer n i
unfolding items
items-write cap size item buffer zero i e h room = refl
items-write cap size item buffer (suc n) i e h room =
    let step = ahead_step cap i n h (omega arith) in
    let rest =
      items-write cap size item buffer n (ahead cap i 1) e (ahead_in cap i 1 h (omega arith))
        (omega arith) in
    let own =
      slot-write size i (ahead cap i (suc n)) item buffer e (ahead_ne cap i n h (omega arith)) in
    rw own (ap (λ zs. slot size i buffer ∷ zs) (rw step at rest))

pub items-snoc :
    (cap size : ℕ) (buffer : List ℕ) (n i : ℕ)
    → i < cap
    → n < cap
    → items cap size buffer (suc n) i
      ≡ items cap size buffer n i ++ slot size (ahead cap i n) buffer ∷ []
unfolding items
items-snoc cap size buffer zero i h room = let e : ahead cap i 0 ≡ i = ground arith in rw e
items-snoc cap size buffer (suc n) i h room =
    let step = ahead_step cap i n h (omega arith) in
    let rest =
      items-snoc cap size buffer n (ahead cap i 1) (ahead_in cap i 1 h (omega arith))
        (omega arith) in
    ap (λ zs. slot size i buffer ∷ zs) (rw step at rest)
