-- ===== src/PowerSupply/Sharing/Entering.antt =====
-- app/power_supply/power_supply.c: `nimble_mutex_lock(&g_status_mutex, NIMBLE_WAIT_FOREVER)` lets a task
-- in only as the owner.
use nimble_rtos.Common.{
  ℕ, ◌≡◌, refl, true, false, none, some, ◌==◌, arith, subst, sym, Bool-cases, Option-cases, inl,
  inr, update, ltb,
}
use nimble_rtos.Common.Tids.{mem}
use nimble_rtos.Kernel.{ok, is_running, wait_forever}
use nimble_rtos.Waiters.{wait_on, returned, waits}
use nimble_rtos.Mutex.{Mutex, is_owner, lock, lock_wait, boost, lock_resume}
use nimble_rtos.Mutex.Parking.{Parked, Quiet, Quiet-refl, set_tcb-Quiet}
use nimble_rtos.Mutex.Parking.Calls.{wait_on-Linked, wait_on-Parked, wait_on-parks, wait_on_waiters}
use nimble_rtos.System.{Runs}
use nimble_rtos.PowerSupply.{PsStatus}
use nimble_rtos.PowerSupply.Sharing.{
  Job, Local, outside, locking, inside, Shared, accesses_of, ask, go_on,
}
use nimble_rtos.PowerSupply.Sharing.Atomic.{replay, accesses_of-Agrees}
use nimble_rtos.PowerSupply.Sharing.Guarded.{Guarded, is_inside, Halfway}
use nimble_rtos.PowerSupply.Sharing.Preserved.{
  all_places, not_inside, only_owner, has_owner_of_is_owner,
}

module _ {F : Type 0} {w : ℕ} {start : PsStatus F} {a : Shared F} (h : Guarded w start a) (self : ℕ)
    (runs : Runs self a.kernel) where
  -- The task that runs waits for nothing.
  off_list : mem self (a.kernel.wait_lists w) ≡ false
  off_list = ground (arith, h.linked.in_wait w self, runs.1)

  -- A task becomes the owner, or is it already, and enters.
  abbrev entered : Job F → Local F → Mutex → Shared F
  entered job l m = record a {
    g_status_mutex = m;
    places = update a.places self (inside job (accesses_of job) l);
  }

  entered-Guarded :
      (job : Job F) (l : Local F) (m : Mutex)
      → m.waiters ≡ w
      → m.lock_count ≡ 1
      → ((t : ℕ) → is_owner t m ≡ (self == t))
      → ((t : ℕ) → (self == t) ≡ false → is_owner t a.g_status_mutex ≡ false)
      → is_inside (a.places self) ≡ false
      → Guarded w start (entered job l m)
  entered-Guarded job l m list count mine others out = record {
    same_list = list;
    linked = h.linked;
    waiting = λ t i n. h.waiting t (ground (arith, mine t)) (ground (arith, mine t, others t));
    waiters = λ t i. ground (arith, h.waiters t i, off_list);
    owned = λ t i. has_owner_of_is_owner m self (ground (arith, mine self));
    holds = λ t i. ground (arith, mine t, others t, h.holds t);
    away = λ t o. ground (arith, mine t);
    once = λ o. count;
    settled = λ none_inside. absurd (ground (arith, none_inside self));
    halfway =
        all_places (λ p. Halfway p a.g_status (replay start a.log)) a.places self
          (inside job (accesses_of job) l)
          (subst (λ g. Halfway (inside job (accesses_of job) l) g (replay start a.log)) (sym quiet)
            (accesses_of-Agrees job (replay start a.log) l))
          (λ t other. not_inside (a.places t) a.g_status (replay start a.log) (nobody t));
    explained = h.explained;
  }
    where
      nobody : (t : ℕ) → is_inside (a.places t) ≡ false
      nobody t = ground (arith, others t, h.holds t)

      quiet : a.g_status ≡ replay start a.log
      quiet = h.settled nobody

  asked_free :
      (job : Job F) (l : Local F)
      → a.places self ≡ outside
      → a.g_status_mutex.owner ≡ none
      → Guarded w start (ask self job l a)
  unfolding ask lock is_owner
  asked_free job l out free =
      let same : lock self wait_forever a.g_status_mutex a.kernel
          ≡ (returned ok, record a.g_status_mutex { owner = some self; lock_count = 1 }, a.kernel) =
        ground arith in
      rw same (
        entered-Guarded job l (record a.g_status_mutex { owner = some self; lock_count = 1 })
          h.same_list refl (λ t. refl) (λ t other. ground arith) (ground arith))

  boost-Quiet : (o : ℕ) → Quiet w a.kernel (boost self o a.kernel)
  unfolding boost
  boost-Quiet o = elim (Bool-cases (ltb (a.kernel.tcbs o).priority (a.kernel.tcbs self).priority)) [
    | inl due ↦ rw due (
        set_tcb-Quiet w h.linked o
          (record (a.kernel.tcbs o) { priority = (a.kernel.tcbs self).priority }) refl)
    | inr high ↦ rw high (Quiet-refl w h.linked)
  ]

  boost_runs : (o : ℕ) → is_running ((boost self o a.kernel).tcbs self).state ≡ true
  unfolding boost
  boost_runs o = ground (arith, runs.1)

  -- The mutex is another's: the task is parked on its list.
  abbrev parked_at : Job F → ℕ → Shared F
  parked_at job o = record a {
    kernel = wait_on w wait_forever self (boost self o a.kernel);
    places = update a.places self (locking job);
  }

  parked_at-Guarded :
      (job : Job F) (o : ℕ)
      → a.g_status_mutex.owner ≡ some o
      → a.places self ≡ outside
      → Guarded w start (parked_at job o)
  parked_at-Guarded job o held out =
      let boosted = boost-Quiet o in
      let run = boost_runs o in
      record {
        same_list = h.same_list;
        linked = wait_on-Linked w boosted.linked self run w wait_forever;
        waiting = λ t i n. elim (Bool-cases (self == t)) [
          | inl same ↦
              let here : self ≡ t = ground arith in
              subst (λ (x : ℕ). Parked w x (wait_on w wait_forever self (boost self o a.kernel)))
                here (wait_on-parks w boosted.linked self run)
          | inr other ↦
              wait_on-Parked w boosted.linked self run w wait_forever t
                (boosted.parked t (h.waiting t (ground arith) n))
        ];
        waiters = λ t i. elim (Bool-cases (self == t)) [
          | inl same ↦ ground arith
          | inr other ↦
              let before = h.waiters t (
                boosted.waiters t
                  (wait_on_waiters w boosted.linked self run wait_forever t other i)) in
              ground arith
        ];
        owned = λ t i. ground arith;
        holds = λ t i. h.holds t (ground arith);
        away = λ t own. ground (arith, h.away t own);
        once = h.once;
        settled = λ none_inside. h.settled (λ t. ground (arith, none_inside t));
        halfway =
            all_places (λ p. Halfway p a.g_status (replay start a.log)) a.places self (locking job)
              tt (λ t other. h.halfway t);
        explained = h.explained;
      }

  asked_held :
      (job : Job F) (l : Local F) (o : ℕ)
      → a.places self ≡ outside
      → a.g_status_mutex.owner ≡ some o
      → Guarded w start (ask self job l a)
  unfolding ask lock lock_wait is_owner
  asked_held job l o out held =
      let other : (o == self) ≡ false = ground (arith, h.away self) in
      let same : lock self wait_forever a.g_status_mutex a.kernel
          ≡ (waits, a.g_status_mutex, wait_on w wait_forever self (boost self o a.kernel)) =
        ground (arith, h.same_list) in
      rw same (parked_at-Guarded job o held out)

  pub ask-Guarded :
      (job : Job F) (l : Local F) → a.places self ≡ outside → Guarded w start (ask self job l a)
  ask-Guarded job l out = elim (Option-cases a.g_status_mutex.owner) [
    | inl free ↦ asked_free job l out free
    | inr (o, held) ↦ asked_held job l o out held
  ]

  -- The owner was asked for, so that it came in by the first half or by a hand-over.
  pub go_on-Guarded :
      (job : Job F) (l : Local F)
      → a.places self ≡ locking job
      → Guarded w start (go_on self job l a)
  unfolding go_on lock_resume
  go_on-Guarded job l e = elim (Bool-cases (is_owner self a.g_status_mutex)) [
    | inr other ↦ absurd (ground (arith, (h.waiting self (ground arith) other).off, runs.1))
    | inl mine ↦ rw mine (
        entered-Guarded job l a.g_status_mutex h.same_list
          (h.once (has_owner_of_is_owner a.g_status_mutex self mine))
          (only_owner a.g_status_mutex self mine)
          (λ t d. ground (arith, only_owner a.g_status_mutex self mine t)) (ground arith))
  ]
