-- ===== src/Scheduler/Selection.antt =====
-- kernel/src/scheduler.c: the choice of the next task.
use nimble_rtos.Common.{
  ℕ, ◌-◌, ◌<◌, ◌≤◌, ◌≡◌, Bool, true, false, some, none, ◌==◌, arith, Option-cases, inl, inr, ap,
  ◌∙◌, subst, head?,
}
use nimble_rtos.Common.Tids.{mem, mem_of_head, head_of_not_nil, not_nil_of_mem}
use nimble_rtos.Common.Bits.{test_bit, test_bit-zero, clz, clz-le, clz_above, clz_found}
use nimble_rtos.Kernel.{Kernel, running, is_ready}
use nimble_rtos.Scheduler.{set_state, scheduler_remove, highest_set_bit, choose, take_first, pick}
use nimble_rtos.Scheduler.Invariant.{WellFormed}
use nimble_rtos.Scheduler.Moves.{}

-- `31 - clz` is the index of the highest set bit: bit `p` is set and no bit above it is.
pub highest_set_bit_lem :
    (b q : ℕ)
    → q < 32
    → test_bit b q ≡ true
    → (p : ℕ) × (highest_set_bit b ≡ some p)
      × (p < 32)
      × (test_bit b p ≡ true)
      × ((r : ℕ) → r < 32 → test_bit b r ≡ true → r ≤ p)
unfolding highest_set_bit
highest_set_bit_lem b q h set = (
  31 - clz 32 b,
  rw nonzero,
  omega arith,
  let e : 32 - 1 - clz 32 b ≡ 31 - clz 32 b = omega arith in rw (← e) (clz_found 32 b few),
  λ r hr sr. ground (arith, clz_above 32 b r),
)
  where
    nonzero : (b == 0) ≡ false
    nonzero = ground (arith, test_bit-zero q)

    few : clz 32 b < 32
    few = ground (arith, clz_above 32 b q, clz-le 32 b)

-- The kernel after `t` was taken off its ready list and chosen.
abbrev pub after_pick : ℕ → Kernel → Kernel
after_pick t k = record (set_state t running (scheduler_remove t k)) { next_tcb = some t }

-- With no bit set, or with a bit set for an empty list, there is no task to choose.
pub pick_no_bit : (k : Kernel) → highest_set_bit k.ready_bitmap ≡ none → pick k ≡ none
unfolding pick
pick_no_bit k e = ap (λ o. take_first o k) e

pub pick_no_task :
    (k : Kernel) (p : ℕ)
    → highest_set_bit k.ready_bitmap ≡ some p
    → head? (k.ready_lists p) ≡ none
    → pick k ≡ none
unfolding pick
pick_no_task k p e f = ap (λ o. take_first o k) e ∙ ap (λ o. choose o k) f

pub pick_task :
    (k : Kernel) (p t : ℕ)
    → highest_set_bit k.ready_bitmap ≡ some p
    → head? (k.ready_lists p) ≡ some t
    → pick k ≡ some (t, after_pick t k)
unfolding pick
pick_task k p t e f = ap (λ o. take_first o k) e ∙ ap (λ o. choose o k) f

module _ {live : ℕ → Bool} {k : Kernel} (wf : WellFormed live k) where
  -- What `pick` chose, and what it left behind.
  pub record Picked (t : ℕ) : Type 0 where
    pub chosen : pick k ≡ some (t, after_pick t k)
    pub in_use : live t ≡ true
    pub was_ready : is_ready (k.tcbs t).state ≡ true
    pub first : head? (k.ready_lists (k.tcbs t).priority) ≡ some t
    pub highest :
        (s : ℕ)
        → live s ≡ true
        → is_ready (k.tcbs s).state ≡ true
        → (k.tcbs s).priority ≤ (k.tcbs t).priority

  listed :
      (s : ℕ)
      → live s ≡ true
      → is_ready (k.tcbs s).state ≡ true
      → test_bit k.ready_bitmap (k.tcbs s).priority ≡ true
  listed s l r = ground (
    arith,
    wf.priority s,
    wf.in_ready (k.tcbs s).priority s,
    wf.bitmap (k.tcbs s).priority,
    not_nil_of_mem s (k.ready_lists (k.tcbs s).priority),
  )

  pub pick-Picked : (i : ℕ) → live i ≡ true → is_ready (k.tcbs i).state ≡ true → (t : ℕ) × Picked t
  pick-Picked i l r =
      let (p, found, small, set, top) =
        highest_set_bit_lem k.ready_bitmap (k.tcbs i).priority (wf.priority i l) (listed i l r) in
      let (t, first) = head_of_not_nil (k.ready_lists p) (ground (arith, wf.bitmap p)) in
      let held : mem t (k.ready_lists p) ≡ true = mem_of_head t (k.ready_lists p) first in
      let here : (k.tcbs t).priority ≡ p = ground (arith, wf.in_ready p t) in
      (
        t,
        record {
          chosen = pick_task k p t found first;
          in_use = ground (arith, wf.in_ready p t);
          was_ready = ground (arith, wf.in_ready p t);
          first = rw here first;
          highest =
              λ s ls rs. rw here (top (k.tcbs s).priority (wf.priority s ls) (listed s ls rs));
        },
      )

-- The converse: whatever `pick` returns is the head of the list of the highest set bit.
pub record PickedFrom (k : Kernel) (t : ℕ) (k' : Kernel) : Type 0 where
  pub index : ℕ
  pub highest_bit : highest_set_bit k.ready_bitmap ≡ some index
  pub first : head? (k.ready_lists index) ≡ some t
  pub result : k' ≡ after_pick t k

pub pick-PickedFrom : (k : Kernel) (t : ℕ) (k' : Kernel) → pick k ≡ some (t, k') → PickedFrom k t k'
pick-PickedFrom k t k' e = elim (Option-cases (highest_set_bit k.ready_bitmap)) [
  | inl nothing ↦ absurd (cc (pick_no_bit k nothing))
  | inr (p, bit) ↦ elim (Option-cases (head? (k.ready_lists p))) [
    | inl empty ↦ absurd (cc (pick_no_task k p bit empty))
    | inr (s, first) ↦
        let found = pick_task k p s bit first in
        let same : s ≡ t = cc found in
        record {
          index = p;
          highest_bit = bit;
          first = first ∙ ap some same;
          result = subst (λ (x : ℕ). k' ≡ after_pick x k) same (cc found);
        }
  ]
]
