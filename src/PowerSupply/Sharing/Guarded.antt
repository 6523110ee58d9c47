-- ===== src/PowerSupply/Sharing/Guarded.antt =====
-- app/power_supply/power_supply.c: what holds of `g_status`, its mutex and the tasks between two steps.
use nimble_rtos.Common.{ℕ, ◌≡◌, Bool, true, false, none, some}
use nimble_rtos.Common.Tids.{mem}
use nimble_rtos.Kernel.{Kernel}
use nimble_rtos.Mutex.{Mutex, is_owner}
use nimble_rtos.Mutex.Parking.{Linked, Parked, Quiet}
use nimble_rtos.PowerSupply.{PsStatus}
use nimble_rtos.PowerSupply.Sharing.{Place, outside, locking, inside, Shared}
use nimble_rtos.PowerSupply.Sharing.Atomic.{replay, Explained, Agrees}

abbrev pub has_owner : Mutex → Bool
has_owner m = elim m.owner [ none ↦ false | some o ↦ true ]

module _ {F : Type 0} where
  abbrev pub is_outside : Place F → Bool
  is_outside outside = true
  is_outside (locking job) = false
  is_outside (inside job todo l) = false

  abbrev pub is_locking : Place F → Bool
  is_locking outside = false
  is_locking (locking job) = true
  is_locking (inside job todo l) = false

  abbrev pub is_inside : Place F → Bool
  is_inside outside = false
  is_inside (locking job) = false
  is_inside (inside job todo l) = true

  -- A task inside has done a part of its accesses.
  abbrev pub Halfway : Place F → PsStatus F → PsStatus F → Type 0
  Halfway outside now before = Unit
  Halfway (locking job) now before = Unit
  Halfway (inside job todo l) now before = Agrees job todo now l before

  pub record Guarded (w : ℕ) (start : PsStatus F) (a : Shared F) : Type 0 where
    pub same_list : a.g_status_mutex.waiters ≡ w
    pub linked : Linked a.kernel
    -- Who asks for the mutex waits in its list until it is the owner.
    pub waiting :
        (t : ℕ)
        → is_locking (a.places t) ≡ true
        → is_owner t a.g_status_mutex ≡ false
        → Parked w t a.kernel
    pub waiters : (t : ℕ) → mem t (a.kernel.wait_lists w) ≡ true → is_locking (a.places t) ≡ true
    pub owned : (t : ℕ) → mem t (a.kernel.wait_lists w) ≡ true → has_owner a.g_status_mutex ≡ true
    -- Who is inside is the owner, and the owner is on its way in or inside.
    pub holds : (t : ℕ) → is_inside (a.places t) ≡ true → is_owner t a.g_status_mutex ≡ true
    pub away : (t : ℕ) → is_owner t a.g_status_mutex ≡ true → is_outside (a.places t) ≡ false
    pub once : has_owner a.g_status_mutex ≡ true → a.g_status_mutex.lock_count ≡ 1
    -- The status is what the finished calls left, but for the accesses of the one that is inside.
    pub settled : ((t : ℕ) → is_inside (a.places t) ≡ false) → a.g_status ≡ replay start a.log
    pub halfway : (t : ℕ) → Halfway (a.places t) a.g_status (replay start a.log)
    pub explained : Explained start a.log

module _ {F : Type 0} {w : ℕ} {start : PsStatus F} {a : Shared F} (h : Guarded w start a) where
  -- A step of the kernel that leaves the list alone.
  pub Quiet-Guarded :
      {k' : Kernel} → Quiet w a.kernel k' → Guarded w start (record a { kernel = k' })
  Quiet-Guarded q = record {
    same_list = h.same_list;
    linked = q.linked;
    waiting = λ t l n. q.parked t (h.waiting t l n);
    waiters = λ t m. h.waiters t (q.waiters t m);
    owned = λ t m. h.owned t (q.waiters t m);
    holds = h.holds;
    away = h.away;
    once = h.once;
    settled = h.settled;
    halfway = h.halfway;
    explained = h.explained;
  }
