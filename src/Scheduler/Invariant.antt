-- ===== src/Scheduler/Invariant.antt =====
-- What holds of the kernel's variables between two critical sections. `live` says which TCBs are in
-- use: a task that is just being moved from one list to another is left out of it meanwhile.
use nimble_rtos.Common.{
  ℕ, ◌<◌, ◌≡◌, Bool, true, false, Option, arith, not, ◌&&◌, ◌||◌, some, ◌==◌, is_nil, subst,
}
use mathlib.Core.Path.{fun_ext}
use nimble_rtos.Common.Tids.{mem, distinct}
use nimble_rtos.Common.Bits.{test_bit}
use nimble_rtos.Kernel.{Kernel, is_ready, is_running, is_blocked, max_priorities}

abbrev pub without : ℕ → (ℕ → Bool) → ℕ → Bool
without t live s = not (s == t) && live s

abbrev pub including : ℕ → (ℕ → Bool) → ℕ → Bool
including t live s = (s == t) || live s

pub record WellFormed (live : ℕ → Bool) (k : Kernel) : Type 0 where
  -- Ready list `p` holds the ready tasks of priority `p`, and bit `p` says whether it holds any.
  pub in_ready :
      (p t : ℕ)
      → mem t (k.ready_lists p)
        ≡ (live t && is_ready (k.tcbs t).state && ((k.tcbs t).priority == p))
  pub bitmap :
      (p : ℕ) → p < max_priorities → test_bit k.ready_bitmap p ≡ not (is_nil (k.ready_lists p))
  pub priority : (t : ℕ) → live t ≡ true → (k.tcbs t).priority < max_priorities
  -- Whatever waits is blocked, and waits for one object.
  pub in_delayed :
      (t : ℕ) → mem t k.delayed_list ≡ true → (live t && is_blocked (k.tcbs t).state) ≡ true
  pub in_wait :
      (w t : ℕ) → mem t (k.wait_lists w) ≡ true → (live t && is_blocked (k.tcbs t).state) ≡ true
  pub one_wait : (v w t : ℕ) → mem t (k.wait_lists v) ≡ true → mem t (k.wait_lists w) ≡ true → v ≡ w
  -- At most one task is running: the current one.
  pub runs : (t : ℕ) → (live t && is_running (k.tcbs t).state) ≡ true → k.current_tcb ≡ some t
  -- No list holds a task twice.
  pub distinct_ready : (p : ℕ) → distinct (k.ready_lists p) ≡ true
  pub distinct_delayed : distinct k.delayed_list ≡ true
  pub distinct_wait : (w : ℕ) → distinct (k.wait_lists w) ≡ true

pub WellFormed-ext :
    {live live' : ℕ → Bool} {k : Kernel}
    → ((t : ℕ) → live t ≡ live' t)
    → WellFormed live k
    → WellFormed live' k
WellFormed-ext {k} same wf = subst (λ l. WellFormed l k) (fun_ext same) wf

-- The tick count, the task chosen next and the pending bit are not read by the invariant.
pub others-WellFormed :
    {live : ℕ → Bool} {k : Kernel}
    → WellFormed live k
    → (n : ℕ) (next : Option ℕ) (pending : Bool)
    → WellFormed live (record k { tick_count = n; next_tcb = next; pendsv_pending = pending })
others-WellFormed wf n next pending = record {
  in_ready = wf.in_ready;
  bitmap = wf.bitmap;
  priority = wf.priority;
  in_delayed = wf.in_delayed;
  in_wait = wf.in_wait;
  one_wait = wf.one_wait;
  runs = wf.runs;
  distinct_ready = wf.distinct_ready;
  distinct_delayed = wf.distinct_delayed;
  distinct_wait = wf.distinct_wait;
}

-- Where no task in use is running, any task may become the current one.
pub switch-WellFormed :
    {live : ℕ → Bool} {k : Kernel}
    → WellFormed live k
    → (c : Option ℕ) → ((t : ℕ) → (live t && is_running (k.tcbs t).state) ≡ false)
    → WellFormed live (record k { current_tcb = c })
switch-WellFormed wf c idle = record {
  in_ready = wf.in_ready;
  bitmap = wf.bitmap;
  priority = wf.priority;
  in_delayed = wf.in_delayed;
  in_wait = wf.in_wait;
  one_wait = wf.one_wait;
  runs = λ s h. ground (arith, idle s);
  distinct_ready = wf.distinct_ready;
  distinct_delayed = wf.distinct_delayed;
  distinct_wait = wf.distinct_wait;
}
