-- ===== src/Timer/Order.antt =====
-- kernel/src/timer.c: the order of the list of active timers, on a window of half the range of the tick
-- counter. There it is the sorted list of Waiters, by how soon a timer is due.
use nimble_rtos.Common.{
  ℕ, ◌-◌, ◌^◌, ◌<◌, ◌≡◌, refl, Bool, true, false, ◌&&◌, some, List, [], ◌∷◌, ◌==◌, arith,
  Bool-cases, inl, inr, if◌then◌else◌, head?, ltb, ap, ◌∙◌, sym, subst,
}
use nimble_rtos.Common.Tids.{mem, remove, mem-remove, mem_of_head}
use nimble_rtos.Common.Words.{add32, sub32, not_before, word}
use nimble_rtos.Waiters.{insert_sorted}
use nimble_rtos.Waiters.Sorted.{
  is_sorted, insert_sorted-is_sorted, is_sorted_ext, is_sorted-remove, head_is_highest,
}
use nimble_rtos.Timer.{
  Timer, Service, insert_by_expiry, insert_sorted_by_expiry, start_timer, expiry_of, before, after,
  set_timer, unlinked,
}
use nimble_rtos.Timer.Members.{ServiceValid, mem-insert_by_expiry, mem-without_it}

abbrev pub within : ℕ → ℕ → Bool
within base e = ltb e word && ltb (sub32 e base) (2 ^ 31)

-- The sooner, the more urgent.
abbrev pub urgency : ℕ → ℕ → ℕ
urgency base e = 2 ^ 31 - sub32 e base

before-urgency :
    (base a b : ℕ)
    → base < word
    → within base a ≡ true
    → within base b ≡ true
    → before a b ≡ ltb (urgency base b) (urgency base a)
unfolding sub32 not_before
before-urgency base a b small wa wb = ground arith

insert_by_expiry-insert_sorted :
    (base : ℕ) (f : ℕ → ℕ) (t : ℕ) (xs : List ℕ)
    → base < word
    → within base (f t) ≡ true
    → ((x : ℕ) → mem x xs ≡ true → within base (f x) ≡ true)
    → insert_by_expiry f t xs ≡ insert_sorted (λ x. urgency base (f x)) t xs
unfolding insert_by_expiry insert_sorted mem
insert_by_expiry-insert_sorted base f t [] small wt inside = refl
insert_by_expiry-insert_sorted base f t (x ∷ xs) small wt inside =
    let first = before-urgency base (f t) (f x) small wt (inside x (ground arith)) in
    let rest =
      insert_by_expiry-insert_sorted base f t xs small wt (λ y h. inside y (ground arith)) in
    rw first (rw rest refl)

pub record ServiceSorted (base : ℕ) (s : Service) : Type 0 where
  pub inside : (x : ℕ) → mem x s.active_timers ≡ true → within base (expiry_of s x) ≡ true
  pub ordered : is_sorted (λ x. urgency base (expiry_of s x)) s.active_timers ≡ true

-- A service whose list is `xs` before the insertion of `t` with what it now says.
abbrev pub reinserted : ℕ → Timer → List ℕ → Service → Service
reinserted t c xs s = insert_sorted_by_expiry t (set_timer t c (record s { active_timers = xs }))

module _ (base : ℕ) (s : Service) (small : base < word) (t : ℕ) (c : Timer) (xs : List ℕ)
    (out : mem t xs ≡ false)
    (inside : (x : ℕ) → mem x xs ≡ true → within base (expiry_of s x) ≡ true)
    (ordered : is_sorted (λ x. urgency base (expiry_of s x)) xs ≡ true)
    (soon : within base c.expiry_tick ≡ true) where
  abbrev f : ℕ → ℕ
  f = expiry_of (reinserted t c xs s)

  others_same : (x : ℕ) → mem x xs ≡ true → expiry_of s x ≡ f x
  unfolding insert_sorted_by_expiry
  others_same x h = ground (arith, out)

  own_within : within base (f t) ≡ true
  unfolding insert_sorted_by_expiry
  own_within = ground (arith, soon)

  rest_within : (x : ℕ) → mem x xs ≡ true → within base (f x) ≡ true
  rest_within x h = subst (λ (e : ℕ). within base e ≡ true) (others_same x h) (inside x h)

  inserted : (reinserted t c xs s).active_timers ≡ insert_by_expiry f t xs
  unfolding insert_sorted_by_expiry
  inserted = refl

  pub reinserted-ServiceSorted : ServiceSorted base (reinserted t c xs s)
  reinserted-ServiceSorted = record {
    inside = λ x h. elim (Bool-cases (x == t)) [
      | inl same ↦
          let e : x ≡ t = ground arith in
          subst (λ (y : ℕ). within base (f y) ≡ true) (sym e) own_within
      | inr other ↦ rest_within x (ground (arith, inserted, mem-insert_by_expiry f x t xs))
    ];
    ordered =
        subst (λ zs. is_sorted (λ x. urgency base (f x)) zs ≡ true)
          (sym (inserted ∙ insert_by_expiry-insert_sorted base f t xs small own_within rest_within))
          (insert_sorted-is_sorted (λ x. urgency base (f x)) t xs
            (is_sorted_ext (λ x. urgency base (expiry_of s x)) (λ x. urgency base (f x)) xs
              (λ x h. ap (urgency base) (others_same x h)) ordered));
  }

abbrev without_it : ℕ → Service → List ℕ
without_it t s = if (s.timers t).is_active then remove t s.active_timers else s.active_timers

module _ {base : ℕ} {s : Service} (small : base < word) (o : ServiceSorted base s) where
  abbrev urgent : ℕ → ℕ
  urgent x = urgency base (expiry_of s x)

  sorted-remove : (t : ℕ) → is_sorted urgent (remove t s.active_timers) ≡ true
  sorted-remove t = is_sorted-remove urgent t s.active_timers o.ordered

  sorted-without_it : (t : ℕ) → is_sorted urgent (without_it t s) ≡ true
  sorted-without_it t = elim (Bool-cases (s.timers t).is_active) [
    | inl on ↦ rw on (sorted-remove t)
    | inr off ↦ rw off o.ordered
  ]

  -- In a valid service whose active timers are sorted by expiry within a window of 2^31 ticks,
  -- starting a timer whose expiry falls in the window keeps them sorted and in the window.
  pub start_timer-ServiceSorted :
      ServiceValid s
      → (t now : ℕ) → within base (add32 now (s.timers t).period_ticks) ≡ true
      → ServiceSorted base (start_timer t now s)
  unfolding start_timer
  start_timer-ServiceSorted v t now soon =
      let c = record (s.timers t) {
        expiry_tick = add32 now (s.timers t).period_ticks;
        is_active = true;
      } in
      reinserted-ServiceSorted base s small t c (without_it t s)
        (ground (arith, mem-without_it v t t))
        (λ x h. o.inside x (ground (arith, mem-without_it v t x))) (sorted-without_it t) soon

  kept :
      (t : ℕ) (c : Timer)
      → c.expiry_tick ≡ expiry_of s t
      → (x : ℕ) → expiry_of s x ≡ expiry_of (set_timer t c (unlinked t s)) x
  kept t c same x = ground arith

  -- A timer that leaves the list, whatever it says then, if its expiry stays.
  pub unlinked-ServiceSorted :
      (t : ℕ) (c : Timer)
      → c.expiry_tick ≡ expiry_of s t
      → ServiceSorted base (set_timer t c (unlinked t s))
  unlinked-ServiceSorted t c same = record {
    inside = λ x h.
        subst (λ (e : ℕ). within base e ≡ true) (kept t c same x)
          (o.inside x (ground (arith, mem-remove x t s.active_timers)));
    ordered =
        is_sorted_ext urgent (λ x. urgency base (expiry_of (set_timer t c (unlinked t s)) x))
          (remove t s.active_timers) (λ x h. ap (urgency base) (kept t c same x)) (sorted-remove t);
  }

  -- What is soonest decides for all.
  pub none_due :
      (now t x : ℕ)
      → within base now ≡ true
      → head? s.active_timers ≡ some t
      → after (expiry_of s t) now ≡ true
      → mem x s.active_timers ≡ true
      → after (expiry_of s x) now ≡ true
  unfolding not_before sub32
  none_due now t x wn first later m =
      let order =
        head_is_highest (λ y. urgency base (expiry_of s y)) t x s.active_timers o.ordered first m in
      let wt = o.inside t (mem_of_head t s.active_timers first) in
      let wx = o.inside x m in ground arith
