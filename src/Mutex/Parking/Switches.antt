-- ===== src/Mutex/Parking/Switches.antt =====
-- kernel/src/scheduler.c: the tick and the context switch leave the tasks parked on a list there.
use nimble_rtos.Common.{
  ℕ, ◌≡◌, refl, Bool, true, false, Option, some, none, List, [], ◌∷◌, arith, Bool-cases,
  Option-cases, inl, inr, subst, sym,
}
use nimble_rtos.Common.Tids.{mem, mem-remove, mem-snoc, mem_of_head}
use nimble_rtos.Common.Words.{add32, not_before}
use nimble_rtos.Kernel.{Kernel, err_timeout, is_ready, is_running}
use nimble_rtos.Scheduler.{
  wake, expire, scan_delayed, tick, requeue_current, pick, load_next, select_next, pendsv,
  add_ready, scheduler_remove,
}
use nimble_rtos.Scheduler.Selection.{pick-PickedFrom, after_pick}
use nimble_rtos.Mutex.Parking.{
  Linked, Parked, Quiet, Quiet-trans, Quiet-refl, requested-Quiet, wake-Linked, wake-Parked,
}

module _ (w : ℕ) where
  scan-Linked : (ts : List ℕ) {k : Kernel} → Linked k → Linked (scan_delayed ts k)
  unfolding scan_delayed expire
  scan-Linked [] l = l
  scan-Linked (s ∷ ts) {k} l = elim (Bool-cases (not_before k.tick_count (k.tcbs s).wake_tick)) [
    | inl due ↦ rw due (scan-Linked ts (wake-Linked w l s err_timeout))
    | inr early ↦ rw early (scan-Linked ts l)
  ]

  scan-Parked :
      (ts : List ℕ) {t : ℕ} {k : Kernel}
      → Linked k
      → mem t ts ≡ false
      → Parked w t k
      → Parked w t (scan_delayed ts k)
  unfolding scan_delayed expire mem
  scan-Parked [] l out h = h
  scan-Parked (s ∷ ts) {t} {k} l out h =
      elim (Bool-cases (not_before k.tick_count (k.tcbs s).wake_tick)) [
        | inl due ↦ rw due (
            scan-Parked ts (wake-Linked w l s err_timeout) (ground arith)
              (wake-Parked w l s t err_timeout (ground arith) h))
        | inr early ↦ rw early (scan-Parked ts l (ground arith) h)
      ]

  expire-Linked : (s : ℕ) {k : Kernel} → Linked k → Linked (expire s k)
  unfolding scan_delayed
  expire-Linked s l = scan-Linked (s ∷ []) l

  expire_waiters :
      (s t : ℕ) (k : Kernel)
      → mem t ((expire s k).wait_lists w) ≡ true
      → mem t (k.wait_lists w) ≡ true
  unfolding expire wake
  expire_waiters s t k h = ground (arith, mem-remove t s (k.wait_lists w))

  scan_waiters :
      (ts : List ℕ) (t : ℕ) {k : Kernel}
      → Linked k
      → mem t ((scan_delayed ts k).wait_lists w) ≡ true
      → mem t (k.wait_lists w) ≡ true
  unfolding scan_delayed
  scan_waiters [] t l h = h
  scan_waiters (s ∷ ts) t {k} l h = expire_waiters s t k (scan_waiters ts t (expire-Linked s l) h)

  -- The tick count, the current and the next task and the pending bit are read by none of this.
  others-Quiet :
      {k : Kernel}
      → Linked k
      → (n : ℕ) (current next : Option ℕ) (pending : Bool)
      → Quiet w k (record k {
        tick_count = n;
        current_tcb = current;
        next_tcb = next;
        pendsv_pending = pending;
      })
  others-Quiet l n current next pending = record {
    linked = record { in_ready = l.in_ready; in_wait = l.in_wait };
    parked = λ t h. record {
      off = h.off;
      listed = h.listed;
      only_here = h.only_here;
      untimed = h.untimed;
    };
    waiters = λ t h. h;
  }

  scan-Quiet : {k : Kernel} → Linked k → Quiet w k (scan_delayed k.delayed_list k)
  scan-Quiet {k} l = record {
    linked = scan-Linked k.delayed_list l;
    parked = λ t h. scan-Parked k.delayed_list l h.untimed h;
    waiters = λ t h. scan_waiters k.delayed_list t l h;
  }

  pub tick-Quiet : {k : Kernel} → Linked k → Quiet w k (tick k)
  unfolding tick
  tick-Quiet {k} l =
      let counted =
        others-Quiet l (add32 k.tick_count 1) k.current_tcb k.next_tcb k.pendsv_pending in
      let scanned = scan-Quiet counted.linked in
      Quiet-trans counted (Quiet-trans scanned (requested-Quiet w scanned.linked))

  add_ready-Quiet :
      {k : Kernel}
      → Linked k
      → (c : ℕ) → is_running (k.tcbs c).state ≡ true
      → Quiet w k (add_ready c k)
  unfolding add_ready
  add_ready-Quiet {k} l c runs = record {
    linked = record {
      in_ready = λ p t h. ground (arith, l.in_ready p t, mem-snoc t (k.ready_lists p) c);
      in_wait = λ v t h. ground (arith, l.in_wait v t);
    };
    parked = λ t h. record {
      off = ground (arith, h.off);
      listed = h.listed;
      only_here = h.only_here;
      untimed = h.untimed;
    };
    waiters = λ t h. h;
  }

  requeue_current-Quiet : {k : Kernel} → Linked k → Quiet w k (requeue_current k)
  unfolding requeue_current
  requeue_current-Quiet {k} l = elim (Option-cases k.current_tcb) [
    | inl nobody ↦ let same : requeue_current k ≡ k = ground arith in rw same (Quiet-refl w l)
    | inr (c, cur) ↦ elim (Bool-cases (is_running (k.tcbs c).state)) [
      | inr off ↦ let same : requeue_current k ≡ k = ground arith in rw same (Quiet-refl w l)
      | inl runs ↦
          let same : requeue_current k ≡ add_ready c k = ground arith in
          rw same (add_ready-Quiet l c runs)
    ]
  ]

  after_pick-Quiet :
      {k : Kernel}
      → Linked k
      → (s : ℕ) → is_ready (k.tcbs s).state ≡ true
      → Quiet w k (after_pick s k)
  unfolding scheduler_remove
  after_pick-Quiet {k} l s r = record {
    linked = record {
      in_ready = λ p t h. ground (arith, l.in_ready p t, mem-remove t s (k.ready_lists p));
      in_wait = λ v t h. ground (arith, l.in_wait v t);
    };
    parked = λ t h. record {
      off = ground (arith, h.off);
      listed = h.listed;
      only_here = h.only_here;
      untimed = ground (arith, h.untimed, mem-remove t s k.delayed_list);
    };
    waiters = λ t h. h;
  }

  picked-Quiet : {k : Kernel} → Linked k → (t : ℕ) (q : Kernel) → pick k ≡ some (t, q) → Quiet w k q
  picked-Quiet {k} l t q e =
      let from = pick-PickedFrom k t q e in
      subst (Quiet w k) (sym from.result) (
        after_pick-Quiet l t
          (l.in_ready from.index t (mem_of_head t (k.ready_lists from.index) from.first)))

  loaded-Quiet :
      {k : Kernel} (o : Option (ℕ × Kernel)) (k' : Kernel)
      → ((t : ℕ) (q : Kernel) → o ≡ some (t, q) → Quiet w k q)
      → load_next o ≡ some k'
      → Quiet w k k'
  unfolding load_next
  loaded-Quiet none k' from e = absurd cc
  loaded-Quiet {k} (some (t, q)) k' from e =
      let f = from t q refl in
      subst (λ (o : Option Kernel). elim o [ none ↦ Unit | some j ↦ Quiet w k j ]) e
        (Quiet-trans f (others-Quiet f.linked q.tick_count q.next_tcb q.next_tcb q.pendsv_pending))

  pub pendsv-Quiet : {k k' : Kernel} → Linked k → pendsv k ≡ some k' → Quiet w k k'
  unfolding pendsv select_next
  pendsv-Quiet {k} {k'} l e =
      let cleared = others-Quiet l k.tick_count k.current_tcb k.next_tcb false in
      let queued = requeue_current-Quiet cleared.linked in
      Quiet-trans cleared (
        Quiet-trans queued (
          loaded-Quiet (pick (requeue_current (record k { pendsv_pending = false }))) k'
            (λ t q c. picked-Quiet queued.linked t q c) e))
