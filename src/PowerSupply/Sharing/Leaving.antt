-- ===== src/PowerSupply/Sharing/Leaving.antt =====
-- app/power_supply/power_supply.c: `nimble_mutex_unlock(&g_status_mutex)` lets the next task in.
use nimble_rtos.Common.{
  ℕ, ◌≡◌, refl, true, false, none, some, [], ◌∷◌, arith, Option-cases, inl, inr, update, head?,
}
use nimble_rtos.Common.Tids.{mem, mem_of_head}
use nimble_rtos.Common.Words.{sub32}
use nimble_rtos.Kernel.{Kernel, ok}
use nimble_rtos.Scheduler.{wake, wake_waiter, request_context_switch}
use nimble_rtos.Scheduler.Waking.{wake_waiter-none, wake_waiter-some}
use nimble_rtos.Mutex.{Mutex, is_owner, unlock, hand_over, restore_priority}
use nimble_rtos.Mutex.Parking.{
  Linked, Parked, Quiet, set_tcb-Quiet, requested-Quiet, wake-Linked, wake-Parked, wake_waiters,
}
use nimble_rtos.PowerSupply.{PsStatus}
use nimble_rtos.PowerSupply.Sharing.{
  Job, Local, outside, inside, Shared, perform_all, leave, result,
}
use nimble_rtos.PowerSupply.Sharing.Atomic.{replay, Agrees}
use nimble_rtos.PowerSupply.Sharing.Guarded.{Guarded, is_locking, Halfway, has_owner}
use nimble_rtos.PowerSupply.Sharing.Preserved.{
  all_places, not_inside, alone_inside, one_owner, has_owner_of_is_owner,
}

not_mem_of_head :
    (t w : ℕ) (k : Kernel) → head? (k.wait_lists w) ≡ none → mem t (k.wait_lists w) ≡ false
unfolding mem
not_mem_of_head t w k e = ground arith

module _ {F : Type 0} {w : ℕ} {start : PsStatus F} {a : Shared F} (h : Guarded w start a) (self : ℕ)
    (job : Job F) (l : Local F) (e : a.places self ≡ inside job [] l) where
  mine : is_owner self a.g_status_mutex ≡ true
  mine = h.holds self (ground arith)

  -- All accesses are done: the status is what the call makes of it at once.
  done : Agrees job [] a.g_status l (replay start a.log)
  done = let here = h.halfway self in rw e at here

  -- After the unlock, whoever has the mutex now.
  abbrev left : Mutex → Kernel → Shared F
  left m k = record a {
    kernel = k;
    g_status_mutex = m;
    places = update a.places self outside;
    log = (job, result job l) ∷ a.log;
  }

  left-Guarded :
      (m : Mutex) (k : Kernel)
      → m.waiters ≡ w
      → (has_owner m ≡ true → m.lock_count ≡ 1)
      → Linked k
      → ((t : ℕ) → is_owner t m ≡ true → is_locking (a.places t) ≡ true)
      → ((t : ℕ) → is_owner t m ≡ false → Parked w t a.kernel → Parked w t k)
      → ((t : ℕ) → mem t (k.wait_lists w) ≡ true → mem t (a.kernel.wait_lists w) ≡ true)
      → ((t : ℕ) → mem t (k.wait_lists w) ≡ true → has_owner m ≡ true)
      → Guarded w start (left m k)
  unfolding perform_all replay
  left-Guarded m k list once linked next parked waiters owned = record {
    same_list = list;
    linked = linked;
    waiting = λ t i n.
        parked t n
          (h.waiting t (ground arith) (ground (arith, mine, one_owner a.g_status_mutex self t)));
    waiters = λ t i. ground (arith, h.waiters t (waiters t i));
    owned = owned;
    holds = λ t i. absurd (ground (arith, alone_inside h self (ground arith) t));
    away = λ t o. ground (arith, next t o);
    once = once;
    settled = λ none_inside. done.0;
    halfway =
        all_places (λ p. Halfway p a.g_status (replay start ((job, result job l) ∷ a.log))) a.places
          self outside tt
          (λ t other.
            not_inside (a.places t) a.g_status (replay start ((job, result job l) ∷ a.log))
              (alone_inside h self (ground arith) t other));
    explained = (done.1, h.explained);
  }

  restored-Quiet : Quiet w a.kernel (restore_priority self a.kernel)
  unfolding restore_priority
  restored-Quiet =
      set_tcb-Quiet w h.linked self
        (record (a.kernel.tcbs self) { priority = (a.kernel.tcbs self).base_priority }) refl

  -- The kernel when the first waiter `u` was woken.
  abbrev woken : ℕ → Kernel
  woken u = wake u ok (restore_priority self a.kernel)

  unlock-last :
      unlock self a.g_status_mutex a.kernel
      ≡ hand_over a.g_status_mutex (wake_waiter w (restore_priority self a.kernel))
  unfolding unlock sub32
  unlock-last =
      let one : a.g_status_mutex.lock_count ≡ 1 =
        h.once (has_owner_of_is_owner a.g_status_mutex self mine) in
      rw mine (rw one (rw h.same_list refl))

  nobody_waits :
      head? ((restore_priority self a.kernel).wait_lists w) ≡ none
      → Guarded w start (leave self job l a)
  unfolding leave hand_over is_owner
  nobody_waits first =
      let q = restored-Quiet in
      rw unlock-last (
        rw (wake_waiter-none w (restore_priority self a.kernel) first) (
          left-Guarded (record a.g_status_mutex { owner = none; lock_count = 0 })
            (restore_priority self a.kernel) h.same_list (λ o. absurd (ground arith)) q.linked
            (λ t o. absurd (ground arith)) (λ t n p. q.parked t p) (λ t i. q.waiters t i)
            (λ t i. absurd (ground (arith, not_mem_of_head t w (restore_priority self a.kernel))))))

  first_waits :
      (u : ℕ)
      → head? ((restore_priority self a.kernel).wait_lists w) ≡ some u
      → Guarded w start (leave self job l a)
  unfolding leave hand_over is_owner
  first_waits u first =
      let q = restored-Quiet in
      let listed = mem_of_head u ((restore_priority self a.kernel).wait_lists w) first in
      let asks = h.waiters u (q.waiters u listed) in
      let awake = wake-Linked w q.linked u ok in
      let due = requested-Quiet w awake in
      rw unlock-last (
        rw (wake_waiter-some w u (restore_priority self a.kernel) first) (
          left-Guarded (record a.g_status_mutex { owner = some u; lock_count = 1 })
            (request_context_switch (woken u)) h.same_list (λ o. refl) due.linked
            (λ t o. ground arith)
            (λ t n p. due.parked t (wake-Parked w q.linked u t ok (ground arith) (q.parked t p)))
            (λ t i. q.waiters t (wake_waiters w q.linked u t ok (due.waiters t i))) (λ t i. refl)))

  pub leave-Guarded : Guarded w start (leave self job l a)
  leave-Guarded = elim (Option-cases (head? ((restore_priority self a.kernel).wait_lists w))) [
    | inl nobody ↦ nobody_waits nobody
    | inr (u, first) ↦ first_waits u first
  ]
