-- ===== src/PowerSupply/Startup/Created.antt =====
-- app/power_supply/main.c: the kernel that `main` hands to the scheduler.
use nimble_rtos.Common.{
  ℕ, ◌<◌, ◌≤◌, ◌≡◌, refl, Bool, true, false, none, some, List, [], ◌∷◌, ◌==◌, arith, subst, sym,
  ◌∙◌, update, if◌then◌else◌, ◌||◌,
}
use mathlib.Core.Path.{fun_ext}
use nimble_rtos.Common.Tids.{mem, distinct}
use nimble_rtos.Kernel.{Kernel, is_ready}
use nimble_rtos.Scheduler.{add_ready}
use nimble_rtos.Scheduler.Invariant.{including}
use nimble_rtos.Port.{Memory}
use nimble_rtos.Task.{task_create, create_checked, new_tcb, scheduler_init}
use nimble_rtos.Mutex.{mutex_init}
use nimble_rtos.Semaphore.{semaphore_init}
use nimble_rtos.Queue.{queue_init}
use nimble_rtos.Timer.{Service, timer_service_start}
use nimble_rtos.System.{creates}
use nimble_rtos.System.Reach.{Sound, step-Sound}
use nimble_rtos.System.Boot.{no_task, scheduler_init-Sound}
use nimble_rtos.PowerSupply.Startup.{
  Layout, TaskPlace, ps_shared_init, create, create_tasks, start_timers, words_of,
}

-- Where nothing waits, emptying wait lists changes nothing.
emptied-Sound :
    {idle : ℕ} {live : ℕ → Bool} {k : Kernel}
    → Sound idle live k
    → ((w : ℕ) → k.wait_lists w ≡ [])
    → (lists : ℕ → List ℕ) → ((w : ℕ) → lists w ≡ [])
    → Sound idle live (record k { wait_lists = lists })
emptied-Sound {idle} {live} {k} s none_waits lists empty =
    let same : k.wait_lists ≡ lists = fun_ext (λ w. none_waits w ∙ sym (empty w)) in
    subst (λ (f : ℕ → List ℕ). Sound idle live (record k { wait_lists = f })) same s

module _ (exit_trap : ℕ) where
  create-Sound :
      {idle : ℕ} {live : ℕ → Bool} {k : Kernel}
      → Sound idle live k
      → (p : TaskPlace) (bytes priority : ℕ) (m : Memory) → live p.tcb ≡ false
      → 64 ≤ words_of bytes
      → priority < 32
      → Sound idle (including p.tcb live) (create exit_trap p bytes priority (m, k)).1
  unfolding create
  create-Sound {live = live} {k = k} s p bytes priority m out enough small = step-Sound s (
      creates live k exit_trap p.tcb (some p.name) p.fn 0 p.stack (words_of bytes) priority m out
        enough small)

  create_lists :
      (p : TaskPlace) (bytes priority w : ℕ) (s : Memory × Kernel)
      → (create exit_trap p bytes priority s).1.wait_lists w ≡ s.1.wait_lists w
  unfolding create task_create create_checked add_ready
  create_lists p bytes priority w s = ground arith

  create_priority :
      (p : TaskPlace) (bytes priority x : ℕ) (s : Memory × Kernel)
      → 64 ≤ words_of bytes
      → priority < 32
      → ((create exit_trap p bytes priority s).1.tcbs x).priority
        ≡ (if p.tcb == x then priority else (s.1.tcbs x).priority)
  unfolding create task_create create_checked add_ready new_tcb
  create_priority p bytes priority x s enough small = ground arith

  create_ready :
      (p : TaskPlace) (bytes priority x : ℕ) (s : Memory × Kernel)
      → 64 ≤ words_of bytes
      → priority < 32
      → is_ready ((create exit_trap p bytes priority s).1.tcbs x).state
        ≡ ((p.tcb == x) || is_ready (s.1.tcbs x).state)
  unfolding create task_create create_checked add_ready new_tcb
  create_ready p bytes priority x s enough small = ground arith

  create_current :
      (p : TaskPlace) (bytes priority : ℕ) (s : Memory × Kernel)
      → (create exit_trap p bytes priority s).1.current_tcb ≡ s.1.current_tcb
  unfolding create task_create create_checked add_ready
  create_current p bytes priority s = ground arith

-- The TCBs, in the order of their creation.
abbrev pub tcbs_of : Layout → List ℕ
tcbs_of l =
    l.idle_task.tcb ∷ l.protection.tcb ∷ l.control.tcb ∷ l.comms.tcb ∷ l.logger.tcb
    ∷ l.timer_svc.tcb ∷ []

abbrev pub in_use : Layout → ℕ → Bool
in_use l = including l.timer_svc.tcb (
    including l.logger.tcb (
      including l.comms.tcb
        (including l.control.tcb (including l.protection.tcb (including l.idle_task.tcb no_task)))))

module _ {F : Type 0} (l : Layout) (zero : F) (s : Service) (m : Memory) (k : Kernel)
    (none_waits : (w : ℕ) → k.wait_lists w ≡ []) (apart : distinct (tcbs_of l) ≡ true) where
  abbrev pub initial : Memory × Kernel
  initial = scheduler_init l.exit_trap l.idle_task.tcb l.idle_task.fn l.idle_task.stack m k

  abbrev pub shared : Kernel
  shared = (ps_shared_init l.waits zero initial.1).1

  abbrev pub created : Memory × Kernel
  created = create_tasks l (initial.0, shared)

  abbrev pub handed_over : Kernel
  handed_over = (start_timers l s created).2

  initial_lists : (w : ℕ) → initial.1.wait_lists w ≡ []
  unfolding scheduler_init task_create create_checked add_ready
  initial_lists w = none_waits w

  shared_lists : (w : ℕ) → shared.wait_lists w ≡ []
  unfolding ps_shared_init mutex_init semaphore_init queue_init
  shared_lists w = ground (arith, initial_lists w)

  shared-Sound : Sound l.idle_task.tcb (including l.idle_task.tcb no_task) shared
  unfolding ps_shared_init mutex_init semaphore_init queue_init
  shared-Sound =
      emptied-Sound
        (scheduler_init-Sound k none_waits l.exit_trap l.idle_task.tcb l.idle_task.fn
          l.idle_task.stack m)
        initial_lists shared.wait_lists shared_lists

  created_lists : (w : ℕ) → created.1.wait_lists w ≡ []
  unfolding create_tasks create task_create create_checked add_ready
  created_lists w = shared_lists w

  created-Sound :
      Sound l.idle_task.tcb
        (including l.logger.tcb (
          including l.comms.tcb (
            including l.control.tcb
              (including l.protection.tcb (including l.idle_task.tcb no_task)))))
        created.1
  unfolding create_tasks distinct mem
  created-Sound =
      let s1 =
        create-Sound l.exit_trap shared-Sound l.protection 512 4 initial.0 (ground arith)
          (omega arith) (omega arith) in
      let m1 = create l.exit_trap l.protection 512 4 (initial.0, shared) in
      let s2 =
        create-Sound l.exit_trap s1 l.control 1024 3 m1.0 (ground arith) (omega arith)
          (omega arith) in
      let m2 = create l.exit_trap l.control 1024 3 m1 in
      let s3 =
        create-Sound l.exit_trap s2 l.comms 1024 2 m2.0 (ground arith) (omega arith)
          (omega arith) in
      let m3 = create l.exit_trap l.comms 1024 2 m2 in
      create-Sound l.exit_trap s3 l.logger 768 1 m3.0 (ground arith) (omega arith) (omega arith)

  -- The wait list of the timers' semaphore is emptied too.
  abbrev timers_ready : Kernel
  timers_ready = record created.1 { wait_lists = update created.1.wait_lists l.waits.of_timers [] }

  timers_ready_lists : (w : ℕ) → timers_ready.wait_lists w ≡ []
  timers_ready_lists w = ground (arith, created_lists w)

  handed_over-create :
      handed_over ≡ (create l.exit_trap l.timer_svc 512 3 (created.0, timers_ready)).1
  unfolding start_timers timer_service_start semaphore_init create
  handed_over-create = refl

  pub handed_over_lists : (w : ℕ) → handed_over.wait_lists w ≡ []
  handed_over_lists w = rw handed_over-create (
      create_lists l.exit_trap l.timer_svc 512 3 w (created.0, timers_ready) ∙ timers_ready_lists w)

  pub handed_over-Sound : Sound l.idle_task.tcb (in_use l) handed_over
  unfolding distinct mem
  handed_over-Sound = rw handed_over-create (
      create-Sound l.exit_trap
        (emptied-Sound created-Sound created_lists timers_ready.wait_lists timers_ready_lists)
        l.timer_svc 512 3 created.0 (ground arith) (omega arith) (omega arith))

  -- The priority of each task, by the order of the creations.
  pub handed_over_priority :
      (x : ℕ)
      → (handed_over.tcbs x).priority ≡ (
          if l.timer_svc.tcb == x
          then 3
          else if l.logger.tcb == x
          then 1
          else if l.comms.tcb == x
          then 2
          else if l.control.tcb == x
          then 3
          else if l.protection.tcb == x
          then 4
          else (shared.tcbs x).priority)
  unfolding create_tasks
  handed_over_priority x =
      let m1 = create l.exit_trap l.protection 512 4 (initial.0, shared) in
      let m2 = create l.exit_trap l.control 1024 3 m1 in
      let m3 = create l.exit_trap l.comms 1024 2 m2 in
      let e0 =
        create_priority l.exit_trap l.protection 512 4 x (initial.0, shared) (omega arith)
          (omega arith) in
      let e1 = create_priority l.exit_trap l.control 1024 3 x m1 (omega arith) (omega arith) in
      let e2 = create_priority l.exit_trap l.comms 1024 2 x m2 (omega arith) (omega arith) in
      let e3 = create_priority l.exit_trap l.logger 768 1 x m3 (omega arith) (omega arith) in
      let e4 =
        create_priority l.exit_trap l.timer_svc 512 3 x (created.0, timers_ready) (omega arith)
          (omega arith) in
      rw handed_over-create (rw e4 (rw e3 (rw e2 (rw e1 (rw e0 refl)))))

  pub handed_over_ready : is_ready (handed_over.tcbs l.protection.tcb).state ≡ true
  unfolding create_tasks
  handed_over_ready =
      let x = l.protection.tcb in
      let m1 = create l.exit_trap l.protection 512 4 (initial.0, shared) in
      let m2 = create l.exit_trap l.control 1024 3 m1 in
      let m3 = create l.exit_trap l.comms 1024 2 m2 in
      rw handed_over-create (
        ground (
          arith,
          create_ready l.exit_trap l.protection 512 4 x (initial.0, shared),
          create_ready l.exit_trap l.control 1024 3 x m1,
          create_ready l.exit_trap l.comms 1024 2 x m2,
          create_ready l.exit_trap l.logger 768 1 x m3,
          create_ready l.exit_trap l.timer_svc 512 3 x (created.0, timers_ready),
        ))

  pub handed_over_current : handed_over.current_tcb ≡ none
  unfolding create_tasks create task_create create_checked add_ready ps_shared_init mutex_init
      semaphore_init queue_init scheduler_init
  handed_over_current = rw handed_over-create refl

  -- The idle task has priority 0.
  pub shared_priority : (shared.tcbs l.idle_task.tcb).priority ≡ 0
  unfolding scheduler_init task_create create_checked add_ready new_tcb ps_shared_init mutex_init
      semaphore_init queue_init
  shared_priority = ground arith
