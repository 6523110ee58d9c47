-- ===== src/PowerSupply/Sharing/Exclusion.antt =====
-- app/power_supply/power_supply.c: `g_status` in every run of the tasks and the interrupts.
use nimble_rtos.Common.{ℕ, ◌≡◌, refl, sym, ◌∙◌, true, false, none, some, [], ==_iff, arith}
use nimble_rtos.Common.Tids.{mem}
use nimble_rtos.Kernel.{Kernel}
use nimble_rtos.Mutex.{is_owner}
use nimble_rtos.Mutex.Parking.{Linked, Parked, Quiet, requested-Quiet}
use nimble_rtos.Mutex.Parking.Switches.{tick-Quiet, pendsv-Quiet}
use nimble_rtos.Mutex.Parking.Calls.{
  delay_task-Quiet, take-Quiet, take_resume-Quiet, give-Quiet, give_from_isr-Quiet, send-Quiet,
  send_resume-Quiet, receive-Quiet, receive_resume-Quiet, send_from_isr-Quiet,
}
use nimble_rtos.System.{Runs}
use nimble_rtos.PowerSupply.{PsStatus}
use nimble_rtos.PowerSupply.Sharing.{
  Shared, outside, OtherCall, yields, delays, takes, takes_on, gives, sends, sends_on, receives,
  receives_on, Interrupt, ticks, switches, requests, gives_from_isr, sends_from_isr, Turn,
  interrupted, calls, asks, goes_on, works, leaves, Turns, none_yet, then_one,
}
use nimble_rtos.PowerSupply.Sharing.Atomic.{replay, Explained}
use nimble_rtos.PowerSupply.Sharing.Guarded.{
  Guarded, is_outside, is_locking, is_inside, Quiet-Guarded,
}
use nimble_rtos.PowerSupply.Sharing.Preserved.{only_owner, owner_of, is_owner_of, work-Guarded}
use nimble_rtos.PowerSupply.Sharing.Entering.{ask-Guarded, go_on-Guarded}
use nimble_rtos.PowerSupply.Sharing.Leaving.{leave-Guarded}

module _ (w : ℕ) {k : Kernel} (l : Linked k) where
  Interrupt-Quiet : {k' : Kernel} → Interrupt w k k' → Quiet w k k'
  Interrupt-Quiet ticks = tick-Quiet w l
  Interrupt-Quiet (switches e) = pendsv-Quiet w l e
  Interrupt-Quiet requests = requested-Quiet w l
  Interrupt-Quiet (gives_from_isr s other) = give_from_isr-Quiet w l s other
  Interrupt-Quiet (sends_from_isr item q other) = send_from_isr-Quiet w l item q other

  OtherCall-Quiet : {self : ℕ} {k' : Kernel} → Runs self k → OtherCall w self k k' → Quiet w k k'
  unfolding nimble_rtos.Task.task_yield
  OtherCall-Quiet r yields = requested-Quiet w l
  OtherCall-Quiet {self} r (delays n) = delay_task-Quiet w l self (ground (arith, r.1)) n
  OtherCall-Quiet {self} r (takes n s other) = take-Quiet w l self (ground (arith, r.1)) n s other
  OtherCall-Quiet {self} r takes_on = take_resume-Quiet w l self (ground (arith, r.1))
  OtherCall-Quiet r (gives s other) = give-Quiet w l s other
  OtherCall-Quiet {self} r (sends n item q receivers senders) =
      send-Quiet w l self (ground (arith, r.1)) n item q receivers senders
  OtherCall-Quiet {self} r (sends_on item q) =
      send_resume-Quiet w l self (ground (arith, r.1)) item q
  OtherCall-Quiet {self} r (receives n q receivers senders) =
      receive-Quiet w l self (ground (arith, r.1)) n q receivers senders
  OtherCall-Quiet {self} r (receives_on q) = receive_resume-Quiet w l self (ground (arith, r.1)) q

module _ {F : Type 0} {w : ℕ} {start : PsStatus F} where
  Turn-Guarded : {a b : Shared F} → Guarded w start a → Turn w a b → Guarded w start b
  Turn-Guarded h (interrupted i) = Quiet-Guarded h (Interrupt-Quiet w h.linked i)
  Turn-Guarded h (calls self r out c) = Quiet-Guarded h (OtherCall-Quiet w h.linked r c)
  Turn-Guarded h (asks self job l r e) = ask-Guarded h self r job l e
  Turn-Guarded h (goes_on self job l r e) = go_on-Guarded h self r job l e
  Turn-Guarded h (works self job x todo l r e) = work-Guarded h self job x todo l e
  Turn-Guarded h (leaves self job l r e) = leave-Guarded h self job l e

  pub Turns-Guarded : {a b : Shared F} → Guarded w start a → Turns w a b → Guarded w start b
  Turns-Guarded h none_yet = h
  Turns-Guarded h (then_one ts t) = Turn-Guarded (Turns-Guarded h ts) t

-- `g_status` and its mutex as `ps_shared_init` leaves them, with every task outside.
abbrev pub at_start : {F : Type 0} → ℕ → PsStatus F → Kernel → Shared F
at_start w start k = record {
  kernel = k;
  g_status_mutex = record { owner = none; lock_count = 0; waiters = w };
  g_status = start;
  places = λ t. outside;
  log = [];
}

module _ {F : Type 0} {w : ℕ} {start : PsStatus F} {k : Kernel} (l : Linked k)
    (nobody : k.wait_lists w ≡ []) where
  at_start-Guarded : Guarded w start (at_start w start k)
  unfolding is_owner replay mem
  at_start-Guarded = record {
    same_list = refl;
    linked = l;
    waiting = λ t i n. absurd (ground arith);
    waiters = λ t m. absurd (ground (arith, nobody));
    owned = λ t m. absurd (ground (arith, nobody));
    holds = λ t i. absurd (ground arith);
    away = λ t o. absurd (ground arith);
    once = λ o. absurd (ground arith);
    settled = λ none_inside. refl;
    halfway = λ t. tt;
    explained = tt;
  }

  -- From a kernel whose lists are in order and in which nobody waits on the mutex, with `g_status`
  -- and its mutex as at start-up and every task outside: after any sequence of single accesses,
  -- calls on other objects, interrupts, ticks and context switches, two tasks that are between the
  -- lock and the unlock of `g_status_mutex` are the same, although the result of the lock is not
  -- looked at.
  pub Turns-one_inside :
      {a : Shared F}
      → Turns w (at_start w start k) a
      → (s t : ℕ) → is_inside (a.places s) ≡ true
      → is_inside (a.places t) ≡ true
      → s ≡ t
  Turns-one_inside {a} run s t i j =
      let h = Turns-Guarded at_start-Guarded run in
      (==_iff s t).0 (sym (only_owner a.g_status_mutex s (h.holds s i) t) ∙ h.holds t j)

  -- From the same start and after any such sequence, every finished call of `ps_status_get` has
  -- copied exactly the status that the finished calls before it left, as if each of them had run
  -- at once; and while no task is inside, `g_status` is what the finished calls leave.
  pub Turns-Explained :
      {a : Shared F}
      → Turns w (at_start w start k) a
      → Explained start a.log
        × (((t : ℕ) → is_inside (a.places t) ≡ false) → a.g_status ≡ replay start a.log)
  Turns-Explained run = let h = Turns-Guarded at_start-Guarded run in (h.explained, h.settled)

  -- From the same start and after any such sequence, a task that asked for the mutex and is not
  -- its owner is blocked in the list of the mutex, in no other wait list and without a timeout,
  -- and the mutex has an owner, which is on its way in or inside.
  pub Turns-Parked :
      {a : Shared F}
      → Turns w (at_start w start k) a
      → (t : ℕ) → is_locking (a.places t) ≡ true
      → is_owner t a.g_status_mutex ≡ false
      → Parked w t a.kernel
        × ((o : ℕ) × (a.g_status_mutex.owner ≡ some o) × (is_outside (a.places o) ≡ false))
  Turns-Parked {a} run t i n =
      let h = Turns-Guarded at_start-Guarded run in
      let parked = h.waiting t i n in
      let (o, owner) = owner_of a.g_status_mutex (h.owned t parked.listed) in
      (parked, (o, owner, h.away o (is_owner_of a.g_status_mutex o owner)))
