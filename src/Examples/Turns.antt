-- ===== src/Examples/Turns.antt =====
-- A run of two tasks of one priority.
use nimble_rtos.Common.{◌≡◌, ◌++◌, ◌∷◌, [], refl, some, arith}
use nimble_rtos.Common.Tids.{remove}
use nimble_rtos.Kernel.{Kernel, ready}
use nimble_rtos.Scheduler.{set_tcb, add_ready, pendsv}
use nimble_rtos.Scheduler.Invariant.{WellFormed, including}
use nimble_rtos.Scheduler.Moves.{add_ready-WellFormed, set_tcb-WellFormed}
use nimble_rtos.Scheduler.Switching.{CurrentLive}
use nimble_rtos.Scheduler.Slicing.{NextInTurn, pendsv-NextInTurn}
use nimble_rtos.Examples.{task, all, busy, busy-WellFormed}

-- Task 3 runs, and task 4 of the same priority is ready.
abbrev peers : Kernel
peers = add_ready 4 (set_tcb 4 (task 7 ready) busy)

peers-WellFormed : WellFormed (including 4 all) peers
peers-WellFormed =
    add_ready-WellFormed (set_tcb-WellFormed busy-WellFormed 4 (task 7 ready) refl) 4 refl
      (omega arith)

peers-CurrentLive : CurrentLive (including 4 all) peers
unfolding add_ready
peers-CurrentLive c h = ground arith

peers-NextInTurn : NextInTurn (including 4 all) peers 3 4
unfolding add_ready
peers-NextInTurn = record {
  current = refl;
  runs = refl;
  first = refl;
  highest = λ s l r. ground arith;
}

pendsv-NextInTurn_example :
    (k' : Kernel) × (pendsv peers ≡ some k')
    × (k'.current_tcb ≡ some 4)
    × (k'.ready_lists 7 ≡ remove 4 (peers.ready_lists 7 ++ 3 ∷ []))
unfolding add_ready
pendsv-NextInTurn_example = pendsv-NextInTurn peers-WellFormed peers-CurrentLive peers-NextInTurn
