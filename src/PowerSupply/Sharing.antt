-- ===== src/PowerSupply/Sharing.antt =====
-- app/power_supply/power_supply.c: `g_status`, which four tasks access under `g_status_mutex`. The
-- accesses are single reads and writes of the members, so that tasks, interrupts and context
-- switches come between any two of them.
pub mod Atomic
pub mod Guarded
pub mod Preserved
pub mod Entering
pub mod Leaving
pub mod Exclusion
use nimble_rtos.Common.{ℕ, ◌≡◌, Bool, true, false, Option, none, some, List, [], ◌∷◌, ◌==◌, update}
use nimble_rtos.Common.Words.{add32}
use nimble_rtos.Kernel.{Kernel, running, wait_forever}
use nimble_rtos.Scheduler.{tick, pendsv, request_context_switch}
use nimble_rtos.Waiters.{Outcome, returned, waits}
use nimble_rtos.Task.{task_yield, delay_task}
use nimble_rtos.Mutex.{Mutex, lock, lock_resume, unlock}
use nimble_rtos.Semaphore.{Semaphore, take, take_resume, give, give_from_isr}
use nimble_rtos.Queue.{Queue, send, send_resume, receive, receive_resume, send_from_isr}
use nimble_rtos.System.{Runs}
use nimble_rtos.PowerSupply.{
  PsState, fault, PsStatus, ps_status_set_measurement, ps_status_set_state, ps_status_note_fault,
}

module _ (F : Type 0) where
  -- The functions of power_supply.c that take the mutex.
  pub data Job : Type 0 where
    get : Job
    set_measurement : (voltage_mv current_ma : F) → Job
    set_state : (state : PsState) → Job
    note_fault : Job

  -- One read or write of a member of `g_status`.
  pub data Access : Type 0 where
    read_state : Access
    read_voltage_mv : Access
    read_current_ma : Access
    read_fault_count : Access
    write_state : PsState → Access
    write_voltage_mv : F → Access
    write_current_ma : F → Access
    load_fault_count : Access
    store_fault_count : Access

  -- What is the caller's own: `*out`, and the register in which `fault_count++` counts.
  pub record Local : Type 0 where
    pub out : PsStatus F
    pub loaded : ℕ

module _ {F : Type 0} where
  unfoldable pub accesses_of : Job F → List (Access F)
  accesses_of get = read_state ∷ read_voltage_mv ∷ read_current_ma ∷ read_fault_count ∷ []
  accesses_of (set_measurement v i) = write_voltage_mv v ∷ write_current_ma i ∷ []
  accesses_of (set_state s) = write_state s ∷ []
  accesses_of note_fault = write_state fault ∷ load_fault_count ∷ store_fault_count ∷ []

  unfoldable pub perform : Access F → PsStatus F × Local F → PsStatus F × Local F
  perform read_state (g, l) = (g, record l { out = record l.out { state = g.state } })
  perform read_voltage_mv (g, l) =
      (g, record l { out = record l.out { voltage_mv = g.voltage_mv } })
  perform read_current_ma (g, l) =
      (g, record l { out = record l.out { current_ma = g.current_ma } })
  perform read_fault_count (g, l) =
      (g, record l { out = record l.out { fault_count = g.fault_count } })
  perform (write_state s) (g, l) = (record g { state = s }, l)
  perform (write_voltage_mv v) (g, l) = (record g { voltage_mv = v }, l)
  perform (write_current_ma i) (g, l) = (record g { current_ma = i }, l)
  perform load_fault_count (g, l) = (g, record l { loaded = g.fault_count })
  perform store_fault_count (g, l) = (record g { fault_count = add32 l.loaded 1 }, l)

  unfoldable pub perform_all : List (Access F) → PsStatus F × Local F → PsStatus F × Local F
  unfolding perform
  perform_all [] s = s
  perform_all (x ∷ xs) s = perform_all xs (perform x s)

-- Where a task stands: outside these functions, in the call of `nimble_mutex_lock` with the switch
-- ahead of it, or between the lock and the unlock with the accesses that are left.
pub data Place (F : Type 0) : Type 0 where
  outside : Place F
  locking : Job F → Place F
  inside : Job F → List (Access F) → Local F → Place F

-- The finished calls, the last one first, each with what it put into `*out`.
abbrev pub Log : Type 0 → Type 0
Log F = List (Job F × Option (PsStatus F))

pub record Shared (F : Type 0) : Type 0 where
  pub kernel : Kernel
  pub g_status_mutex : Mutex
  pub g_status : PsStatus F
  pub places : ℕ → Place F
  pub log : Log F

-- The calls of a task on the other objects, whose wait lists are not `w`.
pub data OtherCall (w self : ℕ) (k : Kernel) : Kernel → Type 0 where
  yields : OtherCall w self k (task_yield k)
  delays : (n : ℕ) → OtherCall w self k (delay_task self n k)
  takes :
      (n : ℕ) (s : Semaphore) → (s.waiters == w) ≡ false → OtherCall w self k (take self n s k).2
  takes_on : OtherCall w self k (take_resume self k).1
  gives : (s : Semaphore) → (s.waiters == w) ≡ false → OtherCall w self k (give s k).2
  sends :
      (n : ℕ) (item : List ℕ) (q : Queue)
      → (q.receivers_waiting == w) ≡ false
      → (q.senders_waiting == w) ≡ false
      → OtherCall w self k (send self n item q k).2
  sends_on : (item : List ℕ) (q : Queue) → OtherCall w self k (send_resume self item q k).2
  receives :
      (n : ℕ) (q : Queue)
      → (q.receivers_waiting == w) ≡ false
      → (q.senders_waiting == w) ≡ false
      → OtherCall w self k (receive self n q k).3
  receives_on : (q : Queue) → OtherCall w self k (receive_resume self q k).3

-- The ticks, the switches, and what the interrupts call.
pub data Interrupt (w : ℕ) (k : Kernel) : Kernel → Type 0 where
  ticks : Interrupt w k (tick k)
  switches : {k' : Kernel} → pendsv k ≡ some k' → Interrupt w k k'
  requests : Interrupt w k (request_context_switch k)
  gives_from_isr : (s : Semaphore) → (s.waiters == w) ≡ false → Interrupt w k (give_from_isr s k).3
  sends_from_isr :
      (item : List ℕ) (q : Queue)
      → (q.receivers_waiting == w) ≡ false
      → Interrupt w k (send_from_isr item q k).3

module _ {F : Type 0} where
  -- The result of `nimble_mutex_lock` is not looked at.
  abbrev pub place_after : Outcome → Job F → Local F → Place F
  place_after (returned status) job l = inside job (accesses_of job) l
  place_after waits job l = locking job

  -- `nimble_mutex_lock(&g_status_mutex, NIMBLE_WAIT_FOREVER)`, up to the switch and from there.
  unfoldable pub ask : ℕ → Job F → Local F → Shared F → Shared F
  ask self job l a =
      let r = lock self wait_forever a.g_status_mutex a.kernel in
      record a {
        kernel = r.2;
        g_status_mutex = r.1;
        places = update a.places self (place_after r.0 job l);
      }

  unfoldable pub go_on : ℕ → Job F → Local F → Shared F → Shared F
  go_on self job l a = record a {
    kernel = (lock_resume self a.g_status_mutex a.kernel).1;
    places = update a.places self (inside job (accesses_of job) l);
  }

  unfoldable pub work : ℕ → Job F → Access F → List (Access F) → Local F → Shared F → Shared F
  work self job x todo l a =
      let r = perform x (a.g_status, l) in
      record a { g_status = r.0; places = update a.places self (inside job todo r.1) }

  -- What the caller gets to see.
  abbrev pub result : Job F → Local F → Option (PsStatus F)
  result get l = some l.out
  result (set_measurement v i) l = none
  result (set_state s) l = none
  result note_fault l = none

  -- `nimble_mutex_unlock(&g_status_mutex)` and the return.
  unfoldable pub leave : ℕ → Job F → Local F → Shared F → Shared F
  leave self job l a =
      let r = unlock self a.g_status_mutex a.kernel in
      record a {
        kernel = r.2;
        g_status_mutex = r.1;
        places = update a.places self outside;
        log = (job, result job l) ∷ a.log;
      }

  pub data Turn (w : ℕ) (a : Shared F) : Shared F → Type 0 where
    interrupted : {k' : Kernel} → Interrupt w a.kernel k' → Turn w a (record a { kernel = k' })
    calls :
        (self : ℕ) {k' : Kernel}
        → Runs self a.kernel
        → a.places self ≡ outside
        → OtherCall w self a.kernel k'
        → Turn w a (record a { kernel = k' })
    asks :
        (self : ℕ) (job : Job F) (l : Local F)
        → Runs self a.kernel
        → a.places self ≡ outside
        → Turn w a (ask self job l a)
    goes_on :
        (self : ℕ) (job : Job F) (l : Local F)
        → Runs self a.kernel
        → a.places self ≡ locking job
        → Turn w a (go_on self job l a)
    works :
        (self : ℕ) (job : Job F) (x : Access F) (todo : List (Access F)) (l : Local F)
        → Runs self a.kernel
        → a.places self ≡ inside job (x ∷ todo) l
        → Turn w a (work self job x todo l a)
    leaves :
        (self : ℕ) (job : Job F) (l : Local F)
        → Runs self a.kernel
        → a.places self ≡ inside job [] l
        → Turn w a (leave self job l a)

  pub data Turns (w : ℕ) (a : Shared F) : Shared F → Type 0 where
    none_yet : Turns w a a
    then_one : {b c : Shared F} → Turns w a b → Turn w b c → Turns w a c
