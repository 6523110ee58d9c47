-- ===== src/Scheduler/Switching.antt =====
-- The context switch: `nimble_scheduler_select_next` as PendSV calls it, from requeueing the
-- current task to running the next.
use nimble_rtos.Common.{
  ℕ, ◌≤◌, ◌≡◌, refl, Bool, true, false, ◌&&◌, ◌||◌, Option, some, none, arith, Bool-cases,
  Option-cases, inl, inr, sym, ap, ◌∙◌, subst,
}
use nimble_rtos.Kernel.{Kernel, TaskState, running, is_ready, is_running}
use nimble_rtos.Scheduler.{
  add_ready, scheduler_remove, requeue_current, pick, load_next, select_next, pendsv,
}
use nimble_rtos.Scheduler.Invariant.{
  WellFormed, WellFormed-ext, others-WellFormed, switch-WellFormed,
}
use nimble_rtos.Scheduler.Moves.{
  scheduler_remove-WellFormed, set_tcb-WellFormed, admit-WellFormed, add_ready-WellFormed,
  retire-WellFormed,
}
use nimble_rtos.Scheduler.Waking.{including-without}
use nimble_rtos.Scheduler.Selection.{after_pick, pick-Picked, PickedFrom, pick-PickedFrom}

abbrev pub is_runnable : TaskState → Bool
is_runnable s = is_ready s || is_running s

-- The current task, if there is one, is in use.
abbrev pub CurrentLive : (ℕ → Bool) → Kernel → Type 0
CurrentLive live k = (c : ℕ) → k.current_tcb ≡ some c → live c ≡ true

-- After requeueing nothing is marked as running, and what was runnable is ready.
pub record Requeued (live : ℕ → Bool) (k k' : Kernel) : Type 0 where
  pub well_formed : WellFormed live k'
  pub none_running : (s : ℕ) → (live s && is_running (k'.tcbs s).state) ≡ false
  pub now_ready :
      (s : ℕ) → live s ≡ true → is_ready (k'.tcbs s).state ≡ is_runnable (k.tcbs s).state
  pub same_priority : (s : ℕ) → (k'.tcbs s).priority ≡ (k.tcbs s).priority
  pub same_base : (s : ℕ) → (k'.tcbs s).base_priority ≡ (k.tcbs s).base_priority
  pub same_sp : (s : ℕ) → (k'.tcbs s).sp ≡ (k.tcbs s).sp
  pub same_result : (s : ℕ) → (k'.tcbs s).last_wait_result ≡ (k.tcbs s).last_wait_result

module _ {live : ℕ → Bool} {k : Kernel} (wf : WellFormed live k) (cl : CurrentLive live k) where
  requeue_idle : ((s : ℕ) → (live s && is_running (k.tcbs s).state) ≡ false) → Requeued live k k
  requeue_idle quiet = record {
    well_formed = wf;
    none_running = quiet;
    now_ready = λ s l. ground (arith, quiet s);
    same_priority = λ s. refl;
    same_base = λ s. refl;
    same_sp = λ s. refl;
    same_result = λ s. refl;
  }

  requeue_running :
      (c : ℕ)
      → k.current_tcb ≡ some c
      → is_running (k.tcbs c).state ≡ true
      → Requeued live k (add_ready c k)
  unfolding add_ready
  requeue_running c cur r = record {
    well_formed =
        WellFormed-ext (λ s. including-without c s live (cl c cur))
          (add_ready-WellFormed (retire-WellFormed wf c (ground arith) (ground arith)) c
            (ground arith) (wf.priority c (cl c cur)));
    none_running = λ s. ground (arith, wf.runs s);
    now_ready = λ s l. ground (arith, wf.runs s);
    same_priority = λ s. ground arith;
    same_base = λ s. ground arith;
    same_sp = λ s. ground arith;
    same_result = λ s. ground arith;
  }

  pub requeue_current-Requeued : Requeued live k (requeue_current k)
  unfolding requeue_current
  requeue_current-Requeued = elim (Option-cases k.current_tcb) [
    | inl nobody ↦
        let same : requeue_current k ≡ k = ground arith in
        subst (Requeued live k) (sym same) (requeue_idle (λ s. ground (arith, wf.runs s)))
    | inr (c, cur) ↦ elim (Bool-cases (is_running (k.tcbs c).state)) [
      | inl r ↦
          let same : requeue_current k ≡ add_ready c k = ground arith in
          subst (Requeued live k) (sym same) (requeue_running c cur r)
      | inr off ↦
          let same : requeue_current k ≡ k = ground arith in
          subst (Requeued live k) (sym same) (requeue_idle (λ s. ground (arith, wf.runs s)))
    ]
  ]

-- The chosen task is marked as running and becomes the current one.
abbrev pub after_switch : ℕ → Kernel → Kernel
after_switch t k = record (after_pick t k) { current_tcb = some t }

pub run-WellFormed :
    {live : ℕ → Bool} {k : Kernel}
    → WellFormed live k
    → ((s : ℕ) → (live s && is_running (k.tcbs s).state) ≡ false)
    → (t : ℕ) → live t ≡ true
    → is_ready (k.tcbs t).state ≡ true
    → WellFormed live (after_switch t k)
unfolding scheduler_remove
run-WellFormed {live} {k} wf quiet t l r =
    let gone = scheduler_remove-WellFormed wf t l (ground arith) in
    let moved = switch-WellFormed gone (some t) (λ s. ground (arith, quiet s)) in
    let marked =
      set_tcb-WellFormed moved t (record (k.tcbs t) { state = running }) (ground arith) in
    let back =
      admit-WellFormed marked t (ground arith) (ground (arith, wf.priority t)) (ground arith)
        (inr refl) in
    others-WellFormed (WellFormed-ext (λ s. including-without t s live l) back) k.tick_count
      (some t) k.pendsv_pending

pub pendsv-pick :
    (k : Kernel) (t : ℕ)
    → pick (requeue_current (record k { pendsv_pending = false }))
      ≡ some (t, after_pick t (requeue_current (record k { pendsv_pending = false })))
    → pendsv k ≡ some (after_switch t (requeue_current (record k { pendsv_pending = false })))
unfolding pendsv
pendsv-pick k t e = ap load_next e

after_switch_base :
    (t s : ℕ) (k : Kernel) → ((after_switch t k).tcbs s).base_priority ≡ (k.tcbs s).base_priority
unfolding scheduler_remove
after_switch_base t s k = ground arith

after_switch_sp : (t s : ℕ) (k : Kernel) → ((after_switch t k).tcbs s).sp ≡ (k.tcbs s).sp
unfolding scheduler_remove
after_switch_sp t s k = ground arith

after_switch_result :
    (t s : ℕ) (k : Kernel)
    → ((after_switch t k).tcbs s).last_wait_result ≡ (k.tcbs s).last_wait_result
unfolding scheduler_remove
after_switch_result t s k = ground arith

after_switch_runnable :
    (t s : ℕ) (k : Kernel)
    → is_ready (k.tcbs t).state ≡ true
    → is_running (k.tcbs s).state ≡ false
    → is_runnable ((after_switch t k).tcbs s).state ≡ is_ready (k.tcbs s).state
unfolding scheduler_remove
after_switch_runnable t s k r quiet = ground arith

-- What PendSV leaves behind: `t` runs, and no runnable task outranks it.
pub record Switched (live : ℕ → Bool) (k : Kernel) (t : ℕ) (k' : Kernel) : Type 0 where
  pub switched : pendsv k ≡ some k'
  pub well_formed : WellFormed live k'
  pub current : k'.current_tcb ≡ some t
  pub in_use : live t ≡ true
  pub now_running : (k'.tcbs t).state ≡ running
  pub was_runnable : is_runnable (k.tcbs t).state ≡ true
  pub highest :
      (s : ℕ)
      → live s ≡ true
      → is_runnable (k.tcbs s).state ≡ true
      → (k.tcbs s).priority ≤ (k.tcbs t).priority
  pub same_runnable :
      (s : ℕ) → live s ≡ true → is_runnable (k'.tcbs s).state ≡ is_runnable (k.tcbs s).state
  pub same_base : (s : ℕ) → (k'.tcbs s).base_priority ≡ (k.tcbs s).base_priority
  pub same_sp : (s : ℕ) → (k'.tcbs s).sp ≡ (k.tcbs s).sp
  pub same_result : (s : ℕ) → (k'.tcbs s).last_wait_result ≡ (k.tcbs s).last_wait_result

-- While the kernel is well formed, the current task (if any) is in use and some task in use is
-- ready or running, the PendSV switch finds a task: it leaves a well-formed kernel in which that
-- task, which was ready or running, is running and current, and no ready or running task had a
-- higher priority; which tasks are ready or running and the base priorities are as before.
pub pendsv-Switched :
    {live : ℕ → Bool} {k : Kernel}
    → WellFormed live k
    → CurrentLive live k
    → (i : ℕ) → live i ≡ true
    → is_runnable (k.tcbs i).state ≡ true
    → (t : ℕ) × (k' : Kernel) × Switched live k t k'
pendsv-Switched {live} {k} wf cl i l r =
    let q = requeue_current-Requeued (others-WellFormed wf k.tick_count k.next_tcb false) cl in
    let (t, picked) = pick-Picked q.well_formed i l (ground (arith, q.now_ready i)) in
    (
      t,
      after_switch t (requeue_current (record k { pendsv_pending = false })),
      record {
        switched = pendsv-pick k t picked.chosen;
        well_formed = run-WellFormed q.well_formed q.none_running t picked.in_use picked.was_ready;
        current = refl;
        in_use = picked.in_use;
        now_running = ground arith;
        was_runnable = ground (arith, q.now_ready t, picked.was_ready, picked.in_use);
        highest = λ s ls rs.
            ground
              (arith, q.now_ready s, q.same_priority s, q.same_priority t, picked.highest s ls);
        same_runnable = λ s ls.
            after_switch_runnable t s (requeue_current (record k { pendsv_pending = false }))
              picked.was_ready (ground (arith, q.none_running s))
            ∙ q.now_ready s ls;
        same_base = λ s.
            after_switch_base t s (requeue_current (record k { pendsv_pending = false }))
            ∙ q.same_base s;
        same_sp = λ s.
            after_switch_sp t s (requeue_current (record k { pendsv_pending = false }))
            ∙ q.same_sp s;
        same_result = λ s.
            after_switch_result t s (requeue_current (record k { pendsv_pending = false }))
            ∙ q.same_result s;
      },
    )

abbrev current_of : Option Kernel → Option ℕ
current_of none = none
current_of (some k) = k.current_tcb

load_next-some :
    (o : Option (ℕ × Kernel)) (k : Kernel)
    → load_next o ≡ some k
    → (t : ℕ) × (k' : Kernel) × (o ≡ some (t, k')) × (k.current_tcb ≡ k'.next_tcb)
unfolding load_next
load_next-some none k e = absurd (cc)
load_next-some (some (t, k')) k e = (t, k', refl, sym (ap (λ (o : Option Kernel). current_of o) e))

-- The converse: the task that runs after a switch heads the list of the highest set bit.
pub pendsv-PickedFrom :
    (k k' : Kernel)
    → pendsv k ≡ some k'
    → (t : ℕ) × (q : Kernel) × PickedFrom
        (requeue_current (record k { pendsv_pending = false }))
        t
        q
      × (k'.current_tcb ≡ some t)
unfolding pendsv select_next
pendsv-PickedFrom k k' e =
    let (t, q, chosen, current) =
      load_next-some (pick (requeue_current (record k { pendsv_pending = false }))) k' e in
    let from = pick-PickedFrom (requeue_current (record k { pendsv_pending = false })) t q chosen in
    (t, q, from, current ∙ ap (λ (x : Kernel). x.next_tcb) from.result)
