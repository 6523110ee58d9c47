-- ===== src/PowerSupply/Faults.antt =====
-- app/power_supply/control_task.c and protection_task.c: noted faults, against the state machine.
use nimble_rtos.Common.{ℕ, zero, suc, ◌≡◌, refl, Bool, true, false, arith, leb, if◌then◌else◌}
use nimble_rtos.Common.Words.{add32}
use nimble_rtos.PowerSupply.{
  PsState, idle, soft_start, running_state, fault, is_fault, PsStatus, soft_start_ramp_steps,
  advance, resync, run_state_machine, control_round,
}

-- The rounds that write the state: the first one, and the last one of the ramp.
abbrev pub writes_state : PsState → ℕ → Bool
writes_state idle step = true
writes_state soft_start step = leb soft_start_ramp_steps (add32 step 1)
writes_state running_state step = false
writes_state fault step = false

module _ {F : Type 0} (v i : F) where
  -- A round of ControlTask on a status with a noted fault overwrites the fault exactly in the
  -- rounds that write the state, which are the one from IDLE and the last one of the ramp; in
  -- every other round the status and the local state are FAULT after it. The fault count stays.
  pub control_round-fault :
      (s : PsState) (step : ℕ) (g : PsStatus F)
      → is_fault g.state ≡ true
      → let r = control_round v i s step g in
        (is_fault r.2.state ≡ (if writes_state s step then false else true))
        × (is_fault r.0 ≡ (if writes_state s step then false else true))
        × (r.2.fault_count ≡ g.fault_count)
  unfolding control_round run_state_machine advance resync
  control_round-fault idle step g h = (refl, refl, refl)
  control_round-fault soft_start step g h = (ground arith, ground arith, ground arith)
  control_round-fault running_state step g h = (ground arith, ground arith, refl)
  control_round-fault fault step g h = (ground arith, ground arith, refl)

  -- Rounds of ControlTask, with the state between them.
  unfoldable pub rounds : ℕ → PsState → ℕ → PsStatus F → PsState × ℕ × PsStatus F
  unfolding control_round
  rounds zero s step g = (s, step, g)
  rounds (suc n) s step g = let r = rounds n s step g in control_round v i r.0 r.1 r.2

  -- Once the local state and the status are FAULT, any number of rounds of ControlTask leaves both
  -- at FAULT.
  pub rounds-fault :
      (n step : ℕ) (g : PsStatus F)
      → is_fault g.state ≡ true
      → let r = rounds n fault step g in (r.0 ≡ fault) × (r.2.state ≡ fault)
  unfolding rounds control_round run_state_machine advance resync
  rounds-fault zero step g h = (refl, ground arith)
  rounds-fault (suc n) step g h =
      let before = rounds-fault n step g h in (ground arith, ground arith)
