-- ===== src/Waiters/Woken.antt =====
-- kernel/src/scheduler.c: what waking the first waiter of a list does to it.
use nimble_rtos.Common.{ℕ, ◌≤◌, ◌≡◌, true, false, some, ◌==◌, arith, head?}
use nimble_rtos.Common.Tids.{mem, remove, mem-remove, mem-snoc}
use nimble_rtos.Kernel.{Kernel, ok, ready}
use nimble_rtos.Scheduler.{wake}
use nimble_rtos.Waiters.{priority_of}
use nimble_rtos.Waiters.Sorted.{is_sorted, head_is_highest}

pub record Woken (w : ℕ) (k : Kernel) (t : ℕ) (k' : Kernel) : Type 0 where
  pub made_ready : (k'.tcbs t).state ≡ ready
  pub told : (k'.tcbs t).last_wait_result ≡ ok
  pub listed : mem t (k'.ready_lists (priority_of k t)) ≡ true
  pub no_wait_left : (v : ℕ) → mem t (k'.wait_lists v) ≡ false
  pub no_timeout_left : mem t k'.delayed_list ≡ false
  pub urgent : (x : ℕ) → mem x (k.wait_lists w) ≡ true → priority_of k x ≤ priority_of k t
  pub others : (x : ℕ) → (x == t) ≡ false → k'.tcbs x ≡ k.tcbs x
  pub others_wait : (v x : ℕ) → (x == t) ≡ false → mem x (k'.wait_lists v) ≡ mem x (k.wait_lists v)

pub wake-Woken :
    (w t : ℕ) (k : Kernel)
    → is_sorted (priority_of k) (k.wait_lists w) ≡ true
    → head? (k.wait_lists w) ≡ some t
    → Woken w k t (wake t ok k)
unfolding wake
wake-Woken w t k so first = record {
  made_ready = ground arith;
  told = ground arith;
  listed = ground (arith, mem-snoc t (remove t (k.ready_lists (priority_of k t))) t);
  no_wait_left = λ v. ground (arith, mem-remove t t (k.wait_lists v));
  no_timeout_left = ground (arith, mem-remove t t k.delayed_list);
  urgent = λ x m. head_is_highest (priority_of k) t x (k.wait_lists w) so first m;
  others = λ x other. ground arith;
  others_wait = λ v x other. ground (arith, mem-remove x t (k.wait_lists v));
}

pub requested-Woken :
    {w t : ℕ} {k k' : Kernel} → Woken w k t k' → Woken w k t (record k' { pendsv_pending = true })
requested-Woken h = record {
  made_ready = h.made_ready;
  told = h.told;
  listed = h.listed;
  no_wait_left = h.no_wait_left;
  no_timeout_left = h.no_timeout_left;
  urgent = h.urgent;
  others = h.others;
  others_wait = h.others_wait;
}
