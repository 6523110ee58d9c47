-- ===== src/Examples/Sharing.antt =====
-- Runs of the tasks of the power supply: a reader of the status, and a writer that outranks it.
use nimble_rtos.Common.{ℕ, ◌≡◌, refl, false, none, some, List, [], ◌∷◌}
use nimble_rtos.Common.Tids.{remove}
use nimble_rtos.Common.Bits.{clear_bit, set_bit, clz}
use nimble_rtos.Common.Words.{not_before, add32}
use nimble_rtos.Waiters.{wait_on, insert_waiter_priority_sorted}
use nimble_rtos.Kernel.{Kernel}
use nimble_rtos.Scheduler.{tick, pendsv, add_ready, prepare_block}
use nimble_rtos.Mutex.{is_owner, lock, boost}
use nimble_rtos.Mutex.Parking.{Linked, Parked}
use nimble_rtos.Task.{delay_task}
use nimble_rtos.PowerSupply.{PsStatus, running_state}
use nimble_rtos.PowerSupply.Sharing.{
  Shared, Local, get, note_fault, Access, perform, read_state, read_voltage_mv, read_current_ma,
  read_fault_count, ask, work, leave, Turns, none_yet, then_one, accesses_of, interrupted, calls,
  asks, works, leaves, ticks, switches, delays,
}
use nimble_rtos.PowerSupply.Sharing.Atomic.{replay, Explained}
use nimble_rtos.PowerSupply.Sharing.Guarded.{is_inside, is_outside}
use nimble_rtos.PowerSupply.Sharing.Exclusion.{
  at_start, Turns-one_inside, Turns-Explained, Turns-Parked,
}
use nimble_rtos.PowerSupply.Startup.First.{WellFormed-Linked}
use nimble_rtos.Examples.{busy, busy-WellFormed}

abbrev steady : PsStatus ℕ
steady = record { state = running_state; voltage_mv = 12000; current_ma = 900; fault_count = 4 }

abbrev blank : Local ℕ
blank = record { out = record steady { voltage_mv = 0 }; loaded = 0 }

abbrev after : Kernel → Kernel
after k = elim (pendsv k) [ none ↦ k | some k' ↦ k' ]

busy-Linked : Linked busy
busy-Linked = WellFormed-Linked busy-WellFormed

-- Task 3 sleeps for a tick, and task 2 begins to read.
abbrev quiet : Shared ℕ
quiet = record (at_start 9 steady busy) { kernel = after (delay_task 3 1 busy) }

abbrev reading : Shared ℕ
reading =
    work 2 get read_state (read_voltage_mv ∷ read_current_ma ∷ read_fault_count ∷ []) blank
      (ask 2 get blank quiet)

-- The tick wakes task 3, which asks for the mutex in the middle of it.
abbrev contended : Shared ℕ
contended = ask 3 note_fault blank (record reading { kernel = after (tick reading.kernel) })

to_quiet : Turns 9 (at_start 9 steady busy) quiet
unfolding pendsv delay_task remove clear_bit set_bit clz
to_quiet =
    then_one (then_one none_yet (calls 3 (refl, refl) refl (delays 1)))
      (interrupted (switches refl))

to_reading : Turns 9 (at_start 9 steady busy) reading
unfolding pendsv delay_task remove clear_bit set_bit clz ask work accesses_of lock
to_reading = then_one (then_one to_quiet (asks 2 get blank (refl, refl) refl)) (
    works 2 get read_state (read_voltage_mv ∷ read_current_ma ∷ read_fault_count ∷ []) blank
      (refl, refl) refl)

to_contended : Turns 9 (at_start 9 steady busy) contended
unfolding pendsv delay_task remove clear_bit set_bit clz ask work accesses_of lock tick not_before
    add32
to_contended =
    then_one (then_one (then_one to_reading (interrupted ticks)) (interrupted (switches refl)))
      (asks 3 note_fault blank (refl, refl) refl)

-- Task 2 reads on and leaves.
abbrev rest : List (Access ℕ)
rest = read_current_ma ∷ read_fault_count ∷ []

abbrev half : Local ℕ
half = record blank { out = record steady { voltage_mv = 0 } }

abbrev resumed : Shared ℕ
resumed = record contended { kernel = after contended.kernel }

abbrev finished : Shared ℕ
finished =
    leave 2 get (record blank { out = steady })
      (work 2 get read_fault_count [] (record blank { out = steady })
        (work 2 get read_current_ma (read_fault_count ∷ []) (record blank { out = steady })
          (work 2 get read_voltage_mv rest half resumed)))

to_finished : Turns 9 (at_start 9 steady busy) finished
unfolding pendsv delay_task remove clear_bit set_bit clz ask work accesses_of lock tick not_before
    add32 perform wait_on prepare_block insert_waiter_priority_sorted boost
to_finished =
    then_one
      (then_one
        (then_one
          (then_one (then_one to_contended (interrupted (switches refl)))
            (works 2 get read_voltage_mv rest half (refl, refl) refl))
          (works 2 get read_current_ma (read_fault_count ∷ []) (record blank { out = steady })
            (refl, refl) refl))
        (works 2 get read_fault_count [] (record blank { out = steady }) (refl, refl) refl))
      (leaves 2 get (record blank { out = steady }) (refl, refl) refl)

no_waiter : busy.wait_lists 9 ≡ []
unfolding add_ready
no_waiter = refl

Turns-one_inside_example : ◌≡◌ {A = ℕ} 2 2
unfolding pendsv delay_task remove clear_bit set_bit clz ask work accesses_of lock tick not_before
    add32
Turns-one_inside_example = Turns-one_inside busy-Linked no_waiter to_contended 2 2 refl refl

Turns-Explained_example :
    Explained steady finished.log
    × (((t : ℕ) → is_inside (finished.places t) ≡ false)
        → finished.g_status ≡ replay steady finished.log)
Turns-Explained_example = Turns-Explained busy-Linked no_waiter to_finished

Turns-Parked_example :
    Parked 9 3 contended.kernel
    × ((o : ℕ) × (contended.g_status_mutex.owner ≡ some o)
        × (is_outside (contended.places o) ≡ false))
unfolding pendsv delay_task remove clear_bit set_bit clz ask work lock tick not_before add32
    is_owner
Turns-Parked_example = Turns-Parked busy-Linked no_waiter to_contended 3 refl refl
