-- ===== src/Queue/Bytes.antt =====
-- kernel/src/queue.c: `memcpy` into and out of the buffer, byte by byte and slot by slot.
use nimble_rtos.Common.{
  ℕ, zero, suc, ◌+◌, ◌*◌, ◌<◌, ◌≤◌, ◌≡◌, ◌≢◌, refl, List, [], ◌∷◌, ◌==◌, arith, Bool-cases, inl,
  inr, ◌⊎◌, if◌then◌else◌, ltb, length, set, length-set, ◌&&◌,
}
use nimble_rtos.Queue.{byte_at, write_bytes, read_bytes}

byte_at-set :
    (bs : List ℕ) (i j v : ℕ)
    → byte_at (set bs i v) j ≡ (if (i == j) && ltb i (length bs) then v else byte_at bs j)
byte_at-set [] i j v = ground arith
byte_at-set (b ∷ bs) zero zero v = ground arith
byte_at-set (b ∷ bs) zero (suc j) v = ground arith
byte_at-set (b ∷ bs) (suc i) zero v = ground arith
byte_at-set (b ∷ bs) (suc i) (suc j) v = ground (arith, byte_at-set bs i j v)

pub length-write_bytes :
    (src : List ℕ) (off : ℕ) (buf : List ℕ) → length (write_bytes src off buf) ≡ length buf
unfolding write_bytes
length-write_bytes [] off buf = refl
length-write_bytes (b ∷ bs) off buf =
    omega (arith, length-write_bytes bs (off + 1) (set buf off b), length-set buf off b)

-- A byte outside the written range is as before.
byte_at-write_other :
    (src : List ℕ) (off i : ℕ) (buf : List ℕ)
    → (i < off) ⊎ (off + length src ≤ i)
    → byte_at (write_bytes src off buf) i ≡ byte_at buf i
unfolding write_bytes
byte_at-write_other [] off i buf out = refl
byte_at-write_other (b ∷ bs) off i buf out =
    ground (arith, byte_at-write_other bs (off + 1) i (set buf off b), byte_at-set buf off i b)

pub read-write_other :
    (n at : ℕ) (src : List ℕ) (off : ℕ) (buf : List ℕ)
    → (at + n ≤ off) ⊎ (off + length src ≤ at)
    → read_bytes n at (write_bytes src off buf) ≡ read_bytes n at buf
unfolding read_bytes
read-write_other zero at src off buf out = refl
read-write_other (suc n) at src off buf out =
    ground (arith, byte_at-write_other src off at buf, read-write_other n (at + 1) src off buf)

-- What was written is read back.
pub read-write_same :
    (src : List ℕ) (off : ℕ) (buf : List ℕ)
    → off + length src ≤ length buf
    → read_bytes (length src) off (write_bytes src off buf) ≡ src
unfolding read_bytes write_bytes
read-write_same [] off buf room = refl
read-write_same (b ∷ bs) off buf room = ground (
  arith,
  read-write_same bs (off + 1) (set buf off b),
  byte_at-write_other bs (off + 1) off (set buf off b),
  byte_at-set buf off off b,
  length-set buf off b,
)

pub slot_inside : (i cap size : ℕ) → i < cap → i * size + size ≤ cap * size
slot_inside i cap size h = grind arith

-- Slots of `size` bytes do not overlap.
pub slots_apart :
    (i j size : ℕ) → i ≢ j → (i * size + size ≤ j * size) ⊎ (j * size + size ≤ i * size)
slots_apart i j size ne = elim (Bool-cases (ltb i j)) [
  | inl below ↦ inl (slot_inside i j size (ground arith))
  | inr above ↦ inr (slot_inside j i size (ground arith))
]
