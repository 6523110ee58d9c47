-- ===== src/Scheduler/Slicing.antt =====
-- kernel/src/scheduler.c: tasks of one priority take turns.
use nimble_rtos.Common.{
  ℕ, ◌≤◌, ◌≡◌, refl, Bool, true, false, some, List, [], ◌∷◌, ◌++◌, arith, head?, subst, ap, ◌∙◌,
}
use nimble_rtos.Common.Tids.{remove}
use nimble_rtos.Kernel.{Kernel, is_ready, is_running}
use nimble_rtos.Scheduler.{add_ready, scheduler_remove, requeue_current, pendsv}
use nimble_rtos.Scheduler.Invariant.{WellFormed, others-WellFormed}
use nimble_rtos.Scheduler.Selection.{Picked, pick-Picked}
use nimble_rtos.Scheduler.Switching.{
  CurrentLive, requeue_current-Requeued, after_switch, pendsv-pick,
}

head-append : (xs : List ℕ) (c t : ℕ) → head? xs ≡ some t → head? (xs ++ c ∷ []) ≡ some t
head-append [] c t e = absurd cc
head-append (x ∷ xs) c t e = e

-- `t` is next in the turn of the running task `c`.
pub record NextInTurn (live : ℕ → Bool) (k : Kernel) (c t : ℕ) : Type 0 where
  pub current : k.current_tcb ≡ some c
  pub runs : is_running (k.tcbs c).state ≡ true
  pub first : head? (k.ready_lists (k.tcbs c).priority) ≡ some t
  pub highest :
      (s : ℕ)
      → live s ≡ true
      → is_ready (k.tcbs s).state ≡ true
      → (k.tcbs s).priority ≤ (k.tcbs c).priority

module _ {live : ℕ → Bool} {k : Kernel} (wf : WellFormed live k) (cl : CurrentLive live k) {c t : ℕ}
    (h : NextInTurn live k c t) where
  abbrev queued : Kernel
  queued = requeue_current (record k { pendsv_pending = false })

  queued_list : queued.ready_lists (k.tcbs c).priority ≡ k.ready_lists (k.tcbs c).priority ++ c ∷ []
  unfolding requeue_current add_ready
  queued_list = ground (arith, h.current, h.runs)

  chosen :
      (x : ℕ)
      → Picked
          (requeue_current-Requeued
            (others-WellFormed wf k.tick_count k.next_tcb false)
            cl).well_formed
          x
      → x ≡ t
  chosen x picked =
      let q = requeue_current-Requeued (others-WellFormed wf k.tick_count k.next_tcb false) cl in
      let live_c : live c ≡ true = cl c h.current in
      let above : (k.tcbs c).priority ≤ (k.tcbs x).priority =
        ground
          (arith, picked.highest c, q.now_ready c, q.same_priority c, q.same_priority x, h.runs) in
      let below : (k.tcbs x).priority ≤ (k.tcbs c).priority = ground (
        arith,
        h.highest x,
        q.now_ready x,
        picked.was_ready,
        picked.in_use,
        wf.runs x,
        h.current,
      ) in
      let same : (queued.tcbs x).priority ≡ (k.tcbs c).priority =
        omega (arith, q.same_priority x, above, below) in
      let head : head? (queued.ready_lists (k.tcbs c).priority) ≡ some t =
        rw queued_list (head-append (k.ready_lists (k.tcbs c).priority) c t h.first) in
      let mine : head? (queued.ready_lists (k.tcbs c).priority) ≡ some x =
        subst (λ (p : ℕ). head? (queued.ready_lists p) ≡ some x) same picked.first in
      ground (arith, head, mine)

  after_list : (x p : ℕ) → (after_switch x queued).ready_lists p ≡ remove x (queued.ready_lists p)
  unfolding scheduler_remove
  after_list x p = refl

  -- In a well-formed kernel whose current task `c` is in use and runs, with `t` first in the ready
  -- list of the priority of `c` and no ready task of a higher priority: PendSV switches to `t`,
  -- and that list becomes the old one with `c` at its tail and without `t`.
  pub pendsv-NextInTurn :
      (k' : Kernel) × (pendsv k ≡ some k')
      × (k'.current_tcb ≡ some t)
      × (k'.ready_lists (k.tcbs c).priority
          ≡ remove t (k.ready_lists (k.tcbs c).priority ++ c ∷ []))
  pendsv-NextInTurn =
      let q = requeue_current-Requeued (others-WellFormed wf k.tick_count k.next_tcb false) cl in
      let live_c : live c ≡ true = cl c h.current in
      let (x, picked) =
        pick-Picked q.well_formed c live_c (ground (arith, q.now_ready c, h.runs)) in
      let e = chosen x picked in
      (
        after_switch x queued,
        pendsv-pick k x picked.chosen,
        ap (λ (y : ℕ). some y) e,
        after_list x (k.tcbs c).priority
            ∙ ap (λ (y : ℕ). remove y (queued.ready_lists (k.tcbs c).priority)) e
            ∙ ap (λ zs. remove t zs) queued_list,
      )
