-- ===== src/Scheduler/Starting.antt =====
-- kernel/src/scheduler.c: `nimble_scheduler_start`.
use nimble_rtos.Common.{ℕ, ◌≤◌, ◌≡◌, Bool, true, none, some, arith, ap, ◌∙◌}
use nimble_rtos.Kernel.{Kernel, is_ready}
use nimble_rtos.Scheduler.{scheduler_start, start_with, select_next, requeue_current, pick}
use nimble_rtos.Scheduler.Invariant.{WellFormed}
use nimble_rtos.Scheduler.Selection.{after_pick, pick-Picked}
use nimble_rtos.Scheduler.Switching.{after_switch, run-WellFormed}

-- The task that the scheduler starts with.
pub record FirstTask (live : ℕ → Bool) (k : Kernel) (t : ℕ) : Type 0 where
  pub started : scheduler_start k ≡ some (t, after_switch t k)
  pub well_formed : WellFormed live (after_switch t k)
  pub in_use : live t ≡ true
  pub was_ready : is_ready (k.tcbs t).state ≡ true
  pub highest :
      (s : ℕ)
      → live s ≡ true
      → is_ready (k.tcbs s).state ≡ true
      → (k.tcbs s).priority ≤ (k.tcbs t).priority

select_next-pick : (k : Kernel) → k.current_tcb ≡ none → select_next k ≡ pick k
unfolding select_next requeue_current
select_next-pick k nobody = let same : requeue_current k ≡ k = ground arith in ap pick same

scheduler_start-pick :
    (k : Kernel) (t : ℕ)
    → k.current_tcb ≡ none
    → pick k ≡ some (t, after_pick t k)
    → scheduler_start k ≡ some (t, after_switch t k)
unfolding scheduler_start
scheduler_start-pick k t nobody e = ap start_with (select_next-pick k nobody ∙ e)

pub scheduler_start-FirstTask :
    {live : ℕ → Bool} {k : Kernel}
    → WellFormed live k
    → k.current_tcb ≡ none
    → (i : ℕ) → live i ≡ true
    → is_ready (k.tcbs i).state ≡ true
    → (t : ℕ) × FirstTask live k t
scheduler_start-FirstTask {live} {k} wf nobody i l r =
    let (t, picked) = pick-Picked wf i l r in
    (
      t,
      record {
        started = scheduler_start-pick k t nobody picked.chosen;
        well_formed =
            run-WellFormed wf (λ s. ground (arith, wf.runs s)) t picked.in_use picked.was_ready;
        in_use = picked.in_use;
        was_ready = picked.was_ready;
        highest = picked.highest;
      },
    )
