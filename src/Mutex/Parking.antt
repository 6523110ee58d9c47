-- ===== src/Mutex/Parking.antt =====
-- kernel/src/mutex.c and scheduler.c: a task that waits for a mutex without a timeout stays where it
-- is, whatever else happens. None of this needs the ready lists to be in order.
pub mod Switches
pub mod Calls
use nimble_rtos.Common.{
  ℕ, ◌≡◌, ◌≢◌, refl, Bool, true, false, Option, some, none, List, [], ◌∷◌, ◌==◌, arith, Bool-cases,
  Option-cases, inl, inr, head?, subst, sym,
}
use nimble_rtos.Common.Tids.{mem, remove, mem-remove, mem-snoc, mem_of_head}
use nimble_rtos.Common.Words.{add32}
use nimble_rtos.Kernel.{
  Kernel, Tcb, Status, ok, err_timeout, is_ready, is_running, is_blocked, wait_forever,
}
use nimble_rtos.Scheduler.{
  set_tcb, wake, wake_waiter, expire, scan_delayed, tick, requeue_current, pick, pendsv,
  prepare_block, block_current_delay, remove_event_link, request_context_switch, scheduler_remove,
  add_ready,
}
use nimble_rtos.Waiters.{wait_on, insert_waiter_priority_sorted, insert_sorted, priority_of}
use nimble_rtos.Waiters.Sorted.{mem-insert_sorted}

-- What is in a ready list is ready, and what is in a wait list is blocked.
pub record Linked (k : Kernel) : Type 0 where
  pub in_ready : (p t : ℕ) → mem t (k.ready_lists p) ≡ true → is_ready (k.tcbs t).state ≡ true
  pub in_wait : (v t : ℕ) → mem t (k.wait_lists v) ≡ true → is_blocked (k.tcbs t).state ≡ true

-- `t` waits in list `w` and nowhere else, without a timeout.
pub record Parked (w t : ℕ) (k : Kernel) : Type 0 where
  pub off : is_blocked (k.tcbs t).state ≡ true
  pub listed : mem t (k.wait_lists w) ≡ true
  pub only_here : (v : ℕ) → (v == w) ≡ false → mem t (k.wait_lists v) ≡ false
  pub untimed : mem t k.delayed_list ≡ false

-- From `k` to `k'` no task that is parked on `w` leaves, and none joins.
pub record Quiet (w : ℕ) (k k' : Kernel) : Type 0 where
  pub linked : Linked k'
  pub parked : (t : ℕ) → Parked w t k → Parked w t k'
  pub waiters : (t : ℕ) → mem t (k'.wait_lists w) ≡ true → mem t (k.wait_lists w) ≡ true

pub Quiet-trans : {w : ℕ} {k k' k'' : Kernel} → Quiet w k k' → Quiet w k' k'' → Quiet w k k''
Quiet-trans f g = record {
  linked = g.linked;
  parked = λ t h. g.parked t (f.parked t h);
  waiters = λ t h. f.waiters t (g.waiters t h);
}

module _ (w : ℕ) {k : Kernel} (l : Linked k) where
  pub Quiet-refl : Quiet w k k
  Quiet-refl = record { linked = l; parked = λ t h. h; waiters = λ t h. h }

  pub requested-Quiet : Quiet w k (request_context_switch k)
  requested-Quiet = record {
    linked = record { in_ready = l.in_ready; in_wait = l.in_wait };
    parked = λ t h. record {
      off = h.off;
      listed = h.listed;
      only_here = h.only_here;
      untimed = h.untimed;
    };
    waiters = λ t h. h;
  }

  -- Waking a task that does not wait here.
  pub wake-Linked : (s : ℕ) (r : Status) → Linked (wake s r k)
  unfolding wake
  wake-Linked s r = record {
    in_ready = λ p t h. ground (
      arith,
      l.in_ready p t,
      mem-snoc t (remove s (k.ready_lists p)) s,
      mem-remove t s (k.ready_lists p),
    );
    in_wait = λ v t h. ground (arith, l.in_wait v t, mem-remove t s (k.wait_lists v));
  }

  pub wake-Parked :
      (s t : ℕ) (r : Status) → (t == s) ≡ false → Parked w t k → Parked w t (wake s r k)
  unfolding wake
  wake-Parked s t r other h = record {
    off = ground (arith, h.off);
    listed = ground (arith, h.listed, mem-remove t s (k.wait_lists w));
    only_here = λ v d. ground (arith, h.only_here v d, mem-remove t s (k.wait_lists v));
    untimed = ground (arith, h.untimed, mem-remove t s k.delayed_list);
  }

  pub wake_waiters :
      (s t : ℕ) (r : Status)
      → mem t ((wake s r k).wait_lists w) ≡ true
      → mem t (k.wait_lists w) ≡ true
  unfolding wake
  wake_waiters s t r h = ground (arith, mem-remove t s (k.wait_lists w))

  pub wake-Quiet :
      (s : ℕ) (r : Status) → ((t : ℕ) → Parked w t k → (t == s) ≡ false) → Quiet w k (wake s r k)
  wake-Quiet s r away = record {
    linked = wake-Linked s r;
    parked = λ t h. wake-Parked s t r (away t h) h;
    waiters = λ t h. wake_waiters s t r h;
  }

  -- A change of a task that keeps its state.
  pub set_tcb-Quiet : (s : ℕ) (c : Tcb) → c.state ≡ (k.tcbs s).state → Quiet w k (set_tcb s c k)
  set_tcb-Quiet s c same = record {
    linked = record {
      in_ready = λ p t h. ground (arith, l.in_ready p t);
      in_wait = λ v t h. ground (arith, l.in_wait v t);
    };
    parked = λ t h. record {
      off = ground (arith, h.off);
      listed = h.listed;
      only_here = h.only_here;
      untimed = h.untimed;
    };
    waiters = λ t h. h;
  }
