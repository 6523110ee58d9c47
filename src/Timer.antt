-- ===== src/Timer.antt =====
-- kernel/src/timer.c and kernel/include/nimble_timer.h: software timers and the task that serves them.
-- The body of the service task is `service_take` up to the switch in the take, then `fire` once for
-- each round of its inner loop.
pub mod Members
pub mod Firing
pub mod Zero
pub mod Periodic
pub mod Order
pub mod Window
pub mod History
use nimble_rtos.Common.{
  ℕ, zero, suc, ◌+◌, ◌-◌, Bool, true, false, not, Option, none, some, List, [], ◌∷◌, ◌++◌, ◌==◌,
  ltb, if◌then◌else◌, update, head?, take, replicate,
}
use nimble_rtos.Common.Tids.{remove}
use nimble_rtos.Common.Words.{add32, sub32, not_before}
use nimble_rtos.Kernel.{Status, ok, Kernel, wait_forever, no_wait}
use nimble_rtos.Semaphore.{Semaphore, semaphore_init, give}
use nimble_rtos.Semaphore
use nimble_rtos.Waiters.{Outcome}
use nimble_rtos.Port.{Memory}
use nimble_rtos.Task.{task_create}

-- The member `link` is the place of the timer in `active_timers` below.
pub record Timer : Type 0 where
  pub period_ticks : ℕ
  pub expiry_tick : ℕ
  pub is_periodic : Bool
  pub is_active : Bool
  pub callback : Option ℕ
  pub arg : ℕ
  pub name : List ℕ

-- The static variables of timer.c, with the timers by their addresses.
pub record Service : Type 0 where
  pub timers : ℕ → Timer
  pub active_timers : List ℕ
  pub timer_wake_sem : Semaphore

abbrev pub set_timer : ℕ → Timer → Service → Service
set_timer t c s = record s { timers = update s.timers t c }

-- `(int32_t)(a - b) < 0`
abbrev pub before : ℕ → ℕ → Bool
before a b = not (not_before a b)

-- Before the first timer that expires later, else at the tail.
unfoldable pub insert_by_expiry : (ℕ → ℕ) → ℕ → List ℕ → List ℕ
insert_by_expiry expiry t [] = t ∷ []
insert_by_expiry expiry t (o ∷ os) =
    if before (expiry t) (expiry o) then t ∷ o ∷ os else o ∷ insert_by_expiry expiry t os

abbrev pub expiry_of : Service → ℕ → ℕ
expiry_of s t = (s.timers t).expiry_tick

unfoldable pub insert_sorted_by_expiry : ℕ → Service → Service
insert_sorted_by_expiry t s = record s {
  active_timers = insert_by_expiry (expiry_of s) t s.active_timers;
}

-- The loop over the name, for the 16 bytes of the member.
unfoldable pub timer_name_scan : List ℕ → ℕ → ℕ
timer_name_scan [] len = len
timer_name_scan (c ∷ cs) len =
    let rest = timer_name_scan cs (len + 1) in
    if c == 0 then len else if ltb len 15 then rest else len

unfoldable pub timer_name : Option (List ℕ) → List ℕ
timer_name none = replicate 16 0
timer_name (some name) = let len = timer_name_scan name 0 in take len name ++ replicate (16 - len) 0

unfoldable pub timer_init : ℕ → Option (List ℕ) → ℕ → Bool → Option ℕ → ℕ → Service → Service
timer_init t name period_ticks is_periodic callback arg s =
    set_timer t
      (record {
        period_ticks = period_ticks;
        expiry_tick = 0;
        is_periodic = is_periodic;
        is_active = false;
        callback = callback;
        arg = arg;
        name = timer_name name;
      })
      s

-- The part of `nimble_timer_start` in its critical section.
unfoldable pub start_timer : ℕ → ℕ → Service → Service
start_timer t now s =
    let timer = s.timers t in
    let s' = record s {
      active_timers = if timer.is_active then remove t s.active_timers else s.active_timers;
    } in
    insert_sorted_by_expiry t (
      set_timer t (record timer { expiry_tick = add32 now timer.period_ticks; is_active = true })
        s')

-- `active_timers.next == &timer->link`
abbrev pub is_first : ℕ → List ℕ → Bool
is_first t [] = false
is_first t (o ∷ os) = o == t

unfoldable pub timer_start : ℕ → Service → Kernel → Status × Service × Kernel
timer_start t s k =
    let s' = start_timer t k.tick_count s in
    let given = give s'.timer_wake_sem k in
    if is_first t s'.active_timers
    then (ok, record s' { timer_wake_sem = given.1 }, given.2)
    else (ok, s', k)

unfoldable pub timer_stop : ℕ → Service → Status × Service
timer_stop t s =
    if (s.timers t).is_active
    then (
      ok,
      set_timer t (record (s.timers t) { is_active = false })
          (record s { active_timers = remove t s.active_timers }),
    )
    else (ok, s)

unfoldable pub timer_reset : ℕ → ℕ → Service → Kernel → Status × Service × Kernel
timer_reset t new_period_ticks s k =
    timer_start t (set_timer t (record (s.timers t) { period_ticks = new_period_ticks }) s) k

-- `(int32_t)(a - b) > 0`
abbrev pub after : ℕ → ℕ → Bool
after a b = if a == b then false else not_before a b

-- How long the service task waits for its semaphore.
unfoldable pub service_wait : ℕ → Service → ℕ
service_wait now s = elim (head? s.active_timers) [
  | none ↦ wait_forever
  | some t ↦ if after (expiry_of s t) now then sub32 (expiry_of s t) now else no_wait
]

-- The outer loop of the service task `self` up to the context switch in the take, the tick count
-- being that of the computation of the wait.
unfoldable pub service_take : ℕ → Service → Kernel → Outcome × Service × Kernel
unfolding service_wait
service_take self s k =
    let r = Semaphore.take self (service_wait k.tick_count s) s.timer_wake_sem k in
    (r.0, record s { timer_wake_sem = r.1 }, r.2)

-- The next expiry of a periodic timer: one period on, or one period from now if that has gone by.
unfoldable pub next_expiry : ℕ → Timer → ℕ
next_expiry now timer =
    let next = add32 timer.expiry_tick timer.period_ticks in
    if before next now then add32 now timer.period_ticks else next

abbrev pub unlinked : ℕ → Service → Service
unlinked t s = record s { active_timers = remove t s.active_timers }

unfoldable pub rearm_periodic : ℕ → ℕ → Service → Service
rearm_periodic now t s = insert_sorted_by_expiry t (
    set_timer t (record (s.timers t) { expiry_tick = next_expiry now (s.timers t) }) (unlinked t s))

unfoldable pub expire_one_shot : ℕ → Service → Service
expire_one_shot t s = set_timer t (record (s.timers t) { is_active = false }) (unlinked t s)

unfoldable pub rearm : ℕ → ℕ → Service → Service
rearm now t s = if (s.timers t).is_periodic then rearm_periodic now t s else expire_one_shot t s

-- One round: `none` where the loop breaks, else the callback with its argument.
unfoldable pub fire_head : ℕ → Service → Option ℕ → Option ((Option ℕ × ℕ) × Service)
fire_head now s none = none
fire_head now s (some t) =
    if after (expiry_of s t) now
    then none
    else some (((s.timers t).callback, (s.timers t).arg), rearm now t s)

unfoldable pub fire : ℕ → Service → Option ((Option ℕ × ℕ) × Service)
fire now s = fire_head now s (head? s.active_timers)

-- The inner loop while the tick count stands at `now`: the callbacks that run, in order. `none`: the
-- fuel was not enough.
unfoldable pub fire_all : ℕ → ℕ → Service → Option (List (Option ℕ × ℕ) × Service)
fire_all zero now s = none
fire_all (suc fuel) now s = elim (fire now s) [
  | none ↦ some ([], s)
  | some (call, s') ↦ elim (fire_all fuel now s') [
    | none ↦ none
    | some (calls, s'') ↦ some (call ∷ calls, s'')
  ]
]

-- `nimble_timer_service_start`: `w` is the address of the head of the semaphore's wait list, `t` that
-- of the task's TCB, `fn` that of the task's function.
unfoldable pub timer_service_start :
    ℕ
    → ℕ
    → ℕ
    → ℕ
    → List ℕ
    → ℕ
    → Option ℕ
    → ℕ
    → Service
    → Memory
    → Kernel
    → Status × Service × Memory × Kernel
timer_service_start exit_trap w t fn name priority stack stack_words s m k =
    let (sem, k') = semaphore_init 0 1 w k in
    let r =
      task_create exit_trap (some t) (some name) (some fn) 0 stack stack_words priority m k' in
    (r.0, record s { active_timers = []; timer_wake_sem = sem }, r.1, r.2)
