-- ===== src/PowerSupply/Startup/First.antt =====
-- app/power_supply/main.c: the task that runs first.
use nimble_rtos.Common.{ℕ, ◌≡◌, refl, Bool, true, Option, some, [], arith, subst, ◌∙◌}
use nimble_rtos.Common.Tids.{mem, distinct}
use nimble_rtos.Kernel.{Kernel}
use nimble_rtos.Scheduler.{scheduler_start, scheduler_remove}
use nimble_rtos.Scheduler.Invariant.{WellFormed}
use nimble_rtos.Scheduler.Switching.{after_switch}
use nimble_rtos.Scheduler.Starting.{FirstTask, scheduler_start-FirstTask}
use nimble_rtos.Port.{Memory}
use nimble_rtos.Board.{Board}
use nimble_rtos.Mutex.Parking.{Linked}
use nimble_rtos.Timer.{Service}
use nimble_rtos.System.{Runs}
use nimble_rtos.PowerSupply.Startup.{Layout, main}
use nimble_rtos.PowerSupply.Startup.Created.{
  tcbs_of, in_use, handed_over, handed_over-Sound, handed_over_lists, handed_over_priority,
  handed_over_ready, handed_over_current, shared_priority,
}

-- `first` is what `main` starts the scheduler on.
pub record FirstRun (l : Layout) (first : Option (ℕ × Kernel)) : Type 0 where
  pub kernel : Kernel
  pub chosen : first ≡ some (l.protection.tcb, kernel)
  pub runs : Runs l.protection.tcb kernel
  pub well_formed : WellFormed (in_use l) kernel
  pub linked : Linked kernel
  pub nobody_waits : (w : ℕ) → kernel.wait_lists w ≡ []

pub WellFormed-Linked : {live : ℕ → Bool} {k : Kernel} → WellFormed live k → Linked k
WellFormed-Linked wf = record {
  in_ready = λ p t h. ground (arith, wf.in_ready p t);
  in_wait = λ v t h. ground (arith, wf.in_wait v t);
}

module _ {F : Type 0} (l : Layout) (zero : F) (b : Board) (s : Service) (m : Memory) (k : Kernel)
    (none_waits : (w : ℕ) → k.wait_lists w ≡ []) (apart : distinct (tcbs_of l) ≡ true) where
  abbrev ready_kernel : Kernel
  ready_kernel = handed_over l zero s m k none_waits apart

  protection_first : (t : ℕ) → FirstTask (in_use l) ready_kernel t → t ≡ l.protection.tcb
  unfolding distinct mem
  protection_first t f = ground (
    arith,
    f.in_use,
    f.highest l.protection.tcb,
    handed_over_ready l zero s m k none_waits apart,
    handed_over_priority l zero s m k none_waits apart t,
    handed_over_priority l zero s m k none_waits apart l.protection.tcb,
    shared_priority l zero s m k none_waits apart,
  )

  main-scheduler_start : (main l zero b s m k).first ≡ scheduler_start ready_kernel
  unfolding main
  main-scheduler_start = refl

  started_lists : (t w : ℕ) → (after_switch t ready_kernel).wait_lists w ≡ []
  unfolding scheduler_remove
  started_lists t w = handed_over_lists l zero s m k none_waits apart w

  started-Runs : (t : ℕ) → Runs t (after_switch t ready_kernel)
  started-Runs t = (refl, ground arith)

  -- On a kernel without waiters and with six different TCBs, `main` starts the scheduler with
  -- ProtectionTask running, in a well-formed kernel with the idle task, the four tasks and the
  -- timer service in use, and with empty wait lists.
  pub main-FirstRun : FirstRun l (main l zero b s m k).first
  main-FirstRun =
      let (t, f) =
        scheduler_start-FirstTask (handed_over-Sound l zero s m k none_waits apart).well_formed
          (handed_over_current l zero s m k none_waits apart) l.protection.tcb (ground arith)
          (handed_over_ready l zero s m k none_waits apart) in
      let same = protection_first t f in
      record {
        kernel = after_switch t ready_kernel;
        chosen =
            main-scheduler_start
            ∙ subst
                (λ (x : ℕ). scheduler_start ready_kernel ≡ some (x, after_switch t ready_kernel))
                same f.started;
        runs = subst (λ (x : ℕ). Runs x (after_switch t ready_kernel)) same (started-Runs t);
        well_formed = f.well_formed;
        linked = WellFormed-Linked f.well_formed;
        nobody_waits = started_lists t;
      }
