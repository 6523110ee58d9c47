-- ===== src/PowerSupply/Sharing/Preserved.antt =====
-- app/power_supply/power_supply.c: each step of a task inside keeps the guard.
use nimble_rtos.Common.{
  ℕ, ◌≡◌, true, false, some, ◌==◌, List, ◌∷◌, arith, subst, Bool-cases, inl, inr, update,
  Option-cases,
}
use nimble_rtos.Mutex.{Mutex, is_owner}
use nimble_rtos.PowerSupply.{PsStatus}
use nimble_rtos.PowerSupply.Sharing.{
  Place, Job, Access, Local, outside, locking, inside, Shared, perform, perform_all, work,
}
use nimble_rtos.PowerSupply.Sharing.Atomic.{replay}
use nimble_rtos.PowerSupply.Sharing.Guarded.{Guarded, is_inside, Halfway, has_owner}

pub one_owner :
    (m : Mutex) (s t : ℕ) → is_owner s m ≡ true → (s == t) ≡ false → is_owner t m ≡ false
unfolding is_owner
one_owner m s t h other = ground arith

pub only_owner : (m : Mutex) (s : ℕ) → is_owner s m ≡ true → (t : ℕ) → is_owner t m ≡ (s == t)
unfolding is_owner
only_owner m s h t = ground arith

pub has_owner_of_is_owner : (m : Mutex) (s : ℕ) → is_owner s m ≡ true → has_owner m ≡ true
unfolding is_owner
has_owner_of_is_owner m s h = ground arith

pub owner_of : (m : Mutex) → has_owner m ≡ true → (o : ℕ) × (m.owner ≡ some o)
owner_of m h = elim (Option-cases m.owner) [
  | inl free ↦ absurd (ground arith)
  | inr (o, e) ↦ (o, e)
]

pub is_owner_of : (m : Mutex) (o : ℕ) → m.owner ≡ some o → is_owner o m ≡ true
unfolding is_owner
is_owner_of m o e = ground arith

module _ {F : Type 0} where
  -- A statement on all places after one was written.
  pub all_places :
      (P : Place F → Type 0) (places : ℕ → Place F) (self : ℕ) (p : Place F)
      → P p
      → ((t : ℕ) → (self == t) ≡ false → P (places t))
      → (t : ℕ) → P (update places self p t)
  all_places P places self p here others t = elim (Bool-cases (self == t)) [
    | inl same ↦ rw same here
    | inr other ↦ rw other (others t other)
  ]

  -- Whoever is not inside is halfway through nothing.
  pub not_inside :
      (p : Place F) (now before : PsStatus F) → is_inside p ≡ false → Halfway p now before
  not_inside outside now before e = tt
  not_inside (locking job) now before e = tt
  not_inside (inside job todo l) now before e = absurd cc

module _ {F : Type 0} {w : ℕ} {start : PsStatus F} {a : Shared F} (h : Guarded w start a)
    (self : ℕ) where
  pub alone_inside :
      is_inside (a.places self) ≡ true
      → (t : ℕ) → (self == t) ≡ false
      → is_inside (a.places t) ≡ false
  alone_inside i t other =
      ground (arith, h.holds self i, h.holds t, one_owner a.g_status_mutex self t)

  pub work-Guarded :
      (job : Job F) (x : Access F) (todo : List (Access F)) (l : Local F)
      → a.places self ≡ inside job (x ∷ todo) l
      → Guarded w start (work self job x todo l a)
  unfolding work perform_all
  work-Guarded job x todo l e = record {
    same_list = h.same_list;
    linked = h.linked;
    waiting = λ t i n. h.waiting t (ground arith) n;
    waiters = λ t m. ground (arith, h.waiters t m);
    owned = h.owned;
    holds = λ t i. h.holds t (ground arith);
    away = λ t o. ground (arith, h.away t o);
    once = h.once;
    settled = λ none_inside. absurd (ground (arith, none_inside self));
    halfway =
        all_places (λ p. Halfway p (perform x (a.g_status, l)).0 (replay start a.log)) a.places self
          (inside job todo (perform x (a.g_status, l)).1)
          (subst (λ p. Halfway p a.g_status (replay start a.log)) e (h.halfway self))
          (λ t other.
            not_inside (a.places t) (perform x (a.g_status, l)).0 (replay start a.log)
              (alone_inside (ground arith) t other));
    explained = h.explained;
  }
