-- ===== src/Task/Stack.antt =====
-- kernel/src/task.c: the stack that `nimble_task_create` prepares, and the high-water mark.
use nimble_rtos.Common.{
  ℕ, zero, suc, ◌+◌, ◌-◌, ◌<◌, ◌≤◌, ◌≡◌, ◌≢◌, refl, List, some, Option, arith, get_elem?, ◌⊎◌, ◌∙◌,
}
use nimble_rtos.Kernel.{Status, Kernel, min_stack_words}
use nimble_rtos.Port.{Memory, frame}
use nimble_rtos.Port.Frame.{push_all-sp, push_all_outside, push_all_at}
use nimble_rtos.Task.{
  stack_canary, fill_canary, create_checked, untouched, get_stack_high_water_mark,
}

fill_canary_inside :
    (n i base : ℕ) (m : Memory) → i < n → fill_canary n base m (base + i) ≡ stack_canary
unfolding fill_canary
fill_canary_inside zero i base m h = absurd (omega arith)
fill_canary_inside (suc n) i base m h = ground (arith, fill_canary_inside n i base m)

fill_canary_outside :
    (n a base : ℕ) (m : Memory) → (a < base) ⊎ (base + n ≤ a) → fill_canary n base m a ≡ m a
unfolding fill_canary
fill_canary_outside zero a base m h = refl
fill_canary_outside (suc n) a base m h = ground (arith, fill_canary_outside n a base m)

untouched_lem :
    (n j base : ℕ) (m : Memory)
    → j < n
    → ((i : ℕ) → i < j → m (base + i) ≡ stack_canary)
    → m (base + j) ≢ stack_canary
    → untouched n base m ≡ j
unfolding untouched
untouched_lem zero j base m h same dirty = absurd (omega arith)
untouched_lem (suc n) zero base m h same dirty =
    let e : base + 0 ≡ base = omega arith in ground arith
untouched_lem (suc n) (suc j) base m h same dirty =
    let e : base + 0 ≡ base = omega arith in
    let f : base + suc j ≡ base + 1 + j = omega arith in
    let rest =
      untouched_lem n j (base + 1) m (omega arith)
        (λ i hi. let g : base + 1 + i ≡ base + suc i = omega arith in ground (arith, same (suc i)))
        (ground arith) in
    ground (arith, same 0)

-- A task that was just created: its stack pointer lies sixteen words below the top of its buffer,
-- those words are the frame, and the mark counts all the words below.
pub record FreshStack (exit_trap t fn arg base words : ℕ) (m : Memory)
    (a : Status × Memory × Kernel) : Type 0 where
  pub pointer : (a.2.tcbs t).sp ≡ base + words - 16
  pub framed :
      (i : ℕ) → i < 16 → get_elem? (frame exit_trap fn arg) i ≡ some (a.1 (base + words - 1 - i))
  pub confined : (x : ℕ) → (x < base) ⊎ (base + words ≤ x) → a.1 x ≡ m x
  pub mark : get_stack_high_water_mark t a.1 a.2 ≡ words - 16

module _ (exit_trap t : ℕ) (name : Option (List ℕ)) (fn arg base words priority : ℕ) (m : Memory)
    (k : Kernel) (enough : min_stack_words ≤ words) where
  abbrev after : Status × Memory × Kernel
  after = create_checked exit_trap t name fn arg base words priority m k

  abbrev filled : Memory
  filled = fill_canary words base m

  below_frame : (i : ℕ) → i < words - 16 → after.1 (base + i) ≡ stack_canary
  unfolding create_checked
  below_frame i h = ground (
    arith,
    push_all_outside (frame exit_trap fn arg) (base + words) (base + i) filled,
    fill_canary_inside words i base m,
  )

  last_pushed : after.1 (base + (words - 16)) ≡ 0x04040404
  unfolding create_checked
  last_pushed =
      let e : base + words - 1 - 15 ≡ base + (words - 16) = omega arith in
      ground (arith, push_all_at (frame exit_trap fn arg) (base + words) 15 filled)

  measured : get_stack_high_water_mark t after.1 after.2 ≡ untouched words base after.1
  unfolding create_checked get_stack_high_water_mark
  measured = ground arith

  marked : get_stack_high_water_mark t after.1 after.2 ≡ words - 16
  marked =
      measured
      ∙ untouched_lem words (words - 16) base after.1 (omega arith) below_frame
          (ground (arith, last_pushed))

  pub create-FreshStack : FreshStack exit_trap t fn arg base words m after
  unfolding create_checked
  create-FreshStack = record {
    pointer = ground (arith, push_all-sp (frame exit_trap fn arg) (base + words) filled);
    framed = λ i h. push_all_at (frame exit_trap fn arg) (base + words) i filled (omega arith) h;
    confined = λ x out. ground (
      arith,
      push_all_outside (frame exit_trap fn arg) (base + words) x filled,
      fill_canary_outside words x base m,
    );
    mark = marked;
  }
