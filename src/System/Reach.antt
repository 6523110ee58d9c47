-- ===== src/System/Reach.antt =====
-- kernel/src: the kernels that steps lead to.
use nimble_rtos.Common.{
  ℕ, ◌<◌, ◌≤◌, ◌≡◌, Bool, true, false, Option, some, List, arith, Bool-cases, inl, inr, subst, sym,
  ◌∙◌,
}
use nimble_rtos.Kernel.{Kernel, max_priorities, min_stack_words, is_running, is_blocked}
use nimble_rtos.Scheduler.{
  tick, pendsv, wake_waiter, request_context_switch, remove_event_link, add_ready,
}
use nimble_rtos.Scheduler.Invariant.{WellFormed, including}
use nimble_rtos.Scheduler.Waking.{tick-WellFormed, wake_waiter-WellFormed, requested-WellFormed}
use nimble_rtos.Scheduler.Switching.{is_runnable, CurrentLive, Switched, pendsv-Switched}
use nimble_rtos.Scheduler.Timeouts.{tick-Ticked, wakes_next, tick_bases}
use nimble_rtos.Port.{Memory}
use nimble_rtos.Task.{
  task_create, create_checked, task_yield, delay_task, task_suspend, task_resume,
}
use nimble_rtos.Task.Lifecycle.{
  task_create-checked, create_checked-WellFormed, task_suspend-WellFormed, task_resume-WellFormed,
  delay_task-WellFormed,
}
use nimble_rtos.Mutex.{lock, unlock}
use nimble_rtos.Mutex.Scheduling.{lock-WellFormed, unlock-WellFormed}
use nimble_rtos.Semaphore.{Semaphore, take, give, give_from_isr}
use nimble_rtos.Semaphore.Giving.{take-WellFormed, give-WellFormed}
use nimble_rtos.Queue.{send, receive, send_from_isr}
use nimble_rtos.Queue.Calls.{send-WellFormed, receive-WellFormed}
use nimble_rtos.System.{
  Runs, Step, Steps, creates, ticks, switches, yields, delays, suspends, resumes, locks, locks_on,
  unlocks, takes, takes_on, gives, gives_from_isr, sends, sends_on, receives, receives_on,
  sends_from_isr, none_yet, then_one,
}
use nimble_rtos.System.Frames.{
  Frame, Frame-refl, requested-Frame, remove_event_link-Frame, delay_task-Frame, task_suspend-Frame,
  task_resume-Frame,
}
use nimble_rtos.System.Calls.{
  remove_event_link-WellFormed, lock_resume-holds, take_resume-holds, send_resume-holds,
  receive_resume-holds, given_from_isr-holds, send_from_isr-holds, give-Frame, give_from_isr-Frame,
  send_from_isr-Frame, unlock-Frame, take-Frame, send-Frame, receive-Frame, lock-Frame,
}

-- What holds in every state: the idle task is there and can run.
pub record Sound (idle : ℕ) (live : ℕ → Bool) (k : Kernel) : Type 0 where
  pub well_formed : WellFormed live k
  pub current_live : CurrentLive live k
  pub bases : (t : ℕ) → live t ≡ true → (k.tcbs t).base_priority < max_priorities
  pub idle_live : live idle ≡ true
  pub idle_runs : is_runnable (k.tcbs idle).state ≡ true

tick-Frame : {idle : ℕ} {live : ℕ → Bool} {k : Kernel} → WellFormed live k → Frame idle k (tick k)
tick-Frame {idle} {k = k} wf =
    let r = tick-Ticked wf in
    record {
      bases = λ t. tick_bases wf t;
      current = r.same_current;
      idle_runs = λ h. elim (Bool-cases (wakes_next idle k)) [
        | inl due ↦ let w = r.woken idle due in ground arith
        | inr other ↦ let w = r.others idle other in ground arith
      ];
    }

module _ {idle : ℕ} {live : ℕ → Bool} {k : Kernel} (s : Sound idle live k) where
  framed : (k' : Kernel) → WellFormed live k' → Frame idle k k' → Sound idle live k'
  framed k' wf f = record {
    well_formed = wf;
    current_live = λ c h. s.current_live c (sym f.current ∙ h);
    bases = λ t l. subst (λ (b : ℕ). b < max_priorities) (sym (f.bases t)) (s.bases t l);
    idle_live = s.idle_live;
    idle_runs = f.idle_runs s.idle_runs;
  }

  caller_live : (self : ℕ) → Runs self k → live self ≡ true
  caller_live self r = s.current_live self r.0

  caller_not_blocked : (self : ℕ) → Runs self k → is_blocked (k.tcbs self).state ≡ false
  caller_not_blocked self r = ground (arith, r.1)

  caller_running : (self : ℕ) → Runs self k → is_running (k.tcbs self).state ≡ true
  caller_running self r = ground (arith, r.1)

  create_checked-Sound :
      (exit_trap t : ℕ) (name : Option (List ℕ)) (fn arg base words priority : ℕ) (m : Memory)
      → live t ≡ false
      → priority < max_priorities
      → Sound idle
          (including t live)
          (create_checked exit_trap t name fn arg base words priority m k).2
  unfolding create_checked add_ready
  create_checked-Sound exit_trap t name fn arg base words priority m out small = record {
    well_formed =
        create_checked-WellFormed s.well_formed exit_trap t name fn arg base words priority m out
          small;
    current_live = λ c h. ground (arith, s.current_live c);
    bases = λ x l. ground (arith, s.bases x);
    idle_live = ground (arith, s.idle_live);
    idle_runs = ground (arith, s.idle_live, s.idle_runs);
  }

  unlinked-Sound : (self : ℕ) → Sound idle live (remove_event_link self k)
  unlinked-Sound self =
      framed (remove_event_link self k) (remove_event_link-WellFormed s.well_formed self)
        (remove_event_link-Frame idle k self)

  switched-Sound : (k' : Kernel) → pendsv k ≡ some k' → Sound idle live k'
  switched-Sound k' e =
      let (t, k'', w) = pendsv-Switched s.well_formed s.current_live idle s.idle_live s.idle_runs in
      let same : k'' ≡ k' = ground (arith, w.switched, e) in
      subst (λ (j : Kernel). Sound idle live j) same
        (record {
          well_formed = w.well_formed;
          current_live = λ c h. ground (arith, w.current, w.in_use);
          bases = λ x l. subst (λ (b : ℕ). b < max_priorities) (sym (w.same_base x)) (s.bases x l);
          idle_live = s.idle_live;
          idle_runs = w.same_runnable idle s.idle_live ∙ s.idle_runs;
        })

  woken-WellFormed : (w : ℕ) → WellFormed live (wake_waiter w k).1
  woken-WellFormed w = wake_waiter-WellFormed s.well_formed w

  isr_give-WellFormed : (m : Semaphore) → WellFormed live (give_from_isr m k).3
  unfolding give_from_isr
  isr_give-WellFormed m =
      given_from_isr-holds (WellFormed live) (λ j h. requested-WellFormed h) m
        (wake_waiter m.waiters k) (woken-WellFormed m.waiters)

  created-Sound :
      (exit_trap t : ℕ) (name : Option (List ℕ)) (fn arg base words priority : ℕ) (m : Memory)
      → live t ≡ false
      → min_stack_words ≤ words
      → priority < max_priorities
      → Sound idle
          (including t live)
          (task_create exit_trap (some t) name (some fn) arg (some base) words priority m k).2
  created-Sound exit_trap t name fn arg base words priority m out enough small =
      subst (λ r. Sound idle (including t live) r.2)
        (sym (task_create-checked exit_trap t name fn arg base words priority m k enough small))
        (create_checked-Sound exit_trap t name fn arg base words priority m out small)

pub step-Sound :
    {idle : ℕ} {live live' : ℕ → Bool} {k k' : Kernel}
    → Sound idle live k
    → Step idle live k live' k'
    → Sound idle live' k'
unfolding task_yield
step-Sound s (creates live k exit_trap t name fn arg base words priority m out enough small) =
    created-Sound s exit_trap t name fn arg base words priority m out enough small
step-Sound s (ticks live k) =
    framed s (tick k) (tick-WellFormed s.well_formed) (tick-Frame s.well_formed)
step-Sound s (switches live k k' e) = switched-Sound s k' e
step-Sound {idle} s (yields live k) =
    framed s (request_context_switch k) (requested-WellFormed s.well_formed)
      (requested-Frame (Frame-refl idle k))
step-Sound {idle} s (delays live k self n r other) =
    framed s (delay_task self n k)
      (delay_task-WellFormed s.well_formed self n (caller_live s self r)
        (caller_not_blocked s self r))
      (delay_task-Frame idle k self other n)
step-Sound {idle} s (suspends live k t l other) =
    framed s (task_suspend t k) (task_suspend-WellFormed s.well_formed t l)
      (task_suspend-Frame idle k t other)
step-Sound {idle} s (resumes live k t l) =
    framed s (task_resume t k) (task_resume-WellFormed s.well_formed t l)
      (task_resume-Frame idle k t)
step-Sound {idle} s (locks live k self n m r other off) =
    framed s (lock self n m k).2
      (lock-WellFormed s.well_formed self (caller_live s self r) (caller_running s self r) m n off)
      (lock-Frame idle k self other n m)
step-Sound {idle} s (locks_on live k self m r) =
    lock_resume-holds (Sound idle live) self k s (unlinked-Sound s self) m
step-Sound {idle} s (unlocks live k self m r) =
    framed s (unlock self m k).2
      (unlock-WellFormed s.well_formed self (caller_live s self r) (caller_running s self r) m
        (s.bases self (caller_live s self r)))
      (unlock-Frame idle k self m)
step-Sound {idle} s (takes live k self n m r other) =
    framed s (take self n m k).2
      (take-WellFormed s.well_formed m self n (caller_live s self r) (caller_not_blocked s self r))
      (take-Frame idle k self other n m)
step-Sound {idle} s (takes_on live k self r) =
    take_resume-holds (Sound idle live) self k s (unlinked-Sound s self)
step-Sound {idle} s (gives live k m) =
    framed s (give m k).2 (give-WellFormed s.well_formed m) (give-Frame idle k m)
step-Sound {idle} s (gives_from_isr live k m) =
    framed s (give_from_isr m k).3 (isr_give-WellFormed s m) (give_from_isr-Frame idle k m)
step-Sound {idle} s (sends live k self n item q r other) =
    framed s (send self n item q k).2
      (send-WellFormed s.well_formed q self n (caller_live s self r) (caller_not_blocked s self r)
        item)
      (send-Frame idle k self other n item q)
step-Sound {idle} s (sends_on live k self item q r) =
    send_resume-holds (Sound idle live) self k s (unlinked-Sound s self) item q
step-Sound {idle} s (receives live k self n q r other) =
    framed s (receive self n q k).3
      (receive-WellFormed s.well_formed q self n (caller_live s self r)
        (caller_not_blocked s self r))
      (receive-Frame idle k self other n q)
step-Sound {idle} s (receives_on live k self q r) =
    receive_resume-holds (Sound idle live) self k s (unlinked-Sound s self) q
step-Sound {idle} s (sends_from_isr live k item q) =
    framed s (send_from_isr item q k).3
      (send_from_isr-holds (WellFormed live) (λ j h. requested-WellFormed h) k item q s.well_formed
        (woken-WellFormed s q.receivers_waiting))
      (send_from_isr-Frame idle k item q)

pub Steps-Sound :
    {idle : ℕ} {live : ℕ → Bool} {k : Kernel} {live' : ℕ → Bool} {k' : Kernel}
    → Sound idle live k
    → Steps idle live k live' k'
    → Sound idle live' k'
Steps-Sound s none_yet = s
Steps-Sound s (then_one before last) = step-Sound (Steps-Sound s before) last

pub Steps-Switched :
    {idle : ℕ} {live : ℕ → Bool} {k : Kernel} {live' : ℕ → Bool} {k' : Kernel}
    → Sound idle live k
    → Steps idle live k live' k'
    → (t : ℕ) × (k'' : Kernel) × Switched live' k' t k''
Steps-Switched {idle} s run =
    let after = Steps-Sound s run in
    pendsv-Switched after.well_formed after.current_live idle after.idle_live after.idle_runs
