-- ===== src/Timer/Firing.antt =====
-- kernel/src/timer.c: how often the inner loop of the service task runs.
use nimble_rtos.Common.{
  ℕ, zero, suc, ◌+◌, ◌*◌, ◌^◌, ◌<◌, ◌≤◌, ◌≡◌, ◌⊎◌, refl, Bool, true, false, Option, none, some,
  List, [], ◌∷◌, ◌==◌, arith, Bool-cases, Option-cases, inl, inr, if◌then◌else◌, head?, length, ap,
  ◌∙◌,
}
use nimble_rtos.Common.Tids.{mem, distinct, remove, mem-remove, mem_of_head, remove_of_not_mem}
use nimble_rtos.Common.Words.{add32, sub32, not_before, word}
use nimble_rtos.Timer.{
  Timer, Service, insert_by_expiry, expiry_of, insert_sorted_by_expiry, rearm, rearm_periodic,
  expire_one_shot, fire, fire_head, fire_all, next_expiry, after,
}
use nimble_rtos.Timer.Members.{ServiceValid, rearm-ServiceValid}

-- How many rounds a timer may still take.
abbrev weight : ℕ → ℕ → ℕ
weight now expiry = if after expiry now then 0 else if expiry == now then 1 else 2

abbrev total : ℕ → (ℕ → ℕ) → List ℕ → ℕ
total now expiry [] = 0
total now expiry (x ∷ xs) = weight now (expiry x) + total now expiry xs

total_ext :
    (now : ℕ) (f g : ℕ → ℕ) (xs : List ℕ)
    → ((x : ℕ) → mem x xs ≡ true → f x ≡ g x)
    → total now f xs ≡ total now g xs
unfolding mem
total_ext now f g [] same = refl
total_ext now f g (x ∷ xs) same =
    let first = same x (ground arith) in
    let rest = total_ext now f g xs (λ y h. same y (ground arith)) in rw first (omega (arith, rest))

total-insert_by_expiry :
    (now t : ℕ) (f : ℕ → ℕ) (xs : List ℕ)
    → total now f (insert_by_expiry f t xs) ≡ weight now (f t) + total now f xs
unfolding insert_by_expiry
total-insert_by_expiry now t f [] = refl
total-insert_by_expiry now t f (x ∷ xs) = ground (arith, total-insert_by_expiry now t f xs)

total-remove :
    (now t : ℕ) (f : ℕ → ℕ) (xs : List ℕ)
    → distinct xs ≡ true
    → mem t xs ≡ true
    → weight now (f t) + total now f (remove t xs) ≡ total now f xs
unfolding distinct mem remove
total-remove now t f [] d m = absurd (ground arith)
total-remove now t f (x ∷ xs) d m = ground (arith, total-remove now t f xs, remove_of_not_mem t xs)

total-le : (now : ℕ) (f : ℕ → ℕ) (xs : List ℕ) → total now f xs ≤ 2 * length xs
total-le now f [] = omega arith
total-le now f (x ∷ xs) = ground (arith, total-le now f xs)

-- A periodic timer that was due is less so after rearming.
next_weight :
    (now : ℕ) (c : Timer)
    → now < word
    → 0 < c.period_ticks
    → c.period_ticks < 2 ^ 31
    → after c.expiry_tick now ≡ false
    → weight now (next_expiry now c) < weight now c.expiry_tick
unfolding next_expiry not_before sub32 add32
next_weight now c small positive short due = ground arith

-- Every periodic timer has a period, of less than half the range of the tick counter.
abbrev pub HasPeriods : Service → Type 0
HasPeriods s =
    (t : ℕ)
    → (s.timers t).is_periodic ≡ true
    → (0 < (s.timers t).period_ticks) × ((s.timers t).period_ticks < 2 ^ 31)

module _ (now : ℕ) (small : now < word) where
  abbrev load : Service → ℕ
  load s = total now (expiry_of s) s.active_timers

  module _ {s : Service} (v : ServiceValid s) (t : ℕ) (m : mem t s.active_timers ≡ true)
      (due : after (expiry_of s t) now ≡ false) where
    left : weight now (expiry_of s t) + total now (expiry_of s) (remove t s.active_timers) ≡ load s
    left = total-remove now t (expiry_of s) s.active_timers v.once m

    load-rearm_periodic :
        (0 < (s.timers t).period_ticks) × ((s.timers t).period_ticks < 2 ^ 31)
        → load (rearm_periodic now t s) < load s
    unfolding rearm_periodic insert_sorted_by_expiry
    load-rearm_periodic p =
        let f = expiry_of (rearm_periodic now t s) in
        let inserted = total-insert_by_expiry now t f (remove t s.active_timers) in
        let own : f t ≡ next_expiry now (s.timers t) = ground arith in
        let less = next_weight now (s.timers t) small p.0 p.1 due in
        let same =
          total_ext now f (expiry_of s) (remove t s.active_timers)
            (λ x h. ground (arith, mem-remove x t s.active_timers)) in
        ground (arith, left)

    load-expire_one_shot : load (expire_one_shot t s) < load s
    unfolding expire_one_shot
    load-expire_one_shot =
        let f = expiry_of (expire_one_shot t s) in
        let same = total_ext now f (expiry_of s) (remove t s.active_timers) (λ x h. ground arith) in
        ground (arith, left)

    load-rearm : HasPeriods s → load (rearm now t s) < load s
    unfolding rearm
    load-rearm p = elim (Bool-cases (s.timers t).is_periodic) [
      | inl again ↦ rw again (load-rearm_periodic (p t again))
      | inr one_shot ↦ rw one_shot load-expire_one_shot
    ]

  rearm-HasPeriods : (s : Service) (t : ℕ) → HasPeriods s → HasPeriods (rearm now t s)
  unfolding rearm rearm_periodic expire_one_shot insert_sorted_by_expiry
  rearm-HasPeriods s t p x h = ground (arith, p x)

  pub fire-cases :
      (s : Service)
      → (fire now s ≡ none)
        ⊎ ((t : ℕ) × (call : Option ℕ × ℕ) × (mem t s.active_timers ≡ true)
            × (after (expiry_of s t) now ≡ false)
            × (fire now s ≡ some (call, rearm now t s)))
  unfolding fire fire_head
  fire-cases s = elim (Option-cases (head? s.active_timers)) [
    | inl nobody ↦ inl (ap (λ o. fire_head now s o) nobody)
    | inr (t, first) ↦ elim (Bool-cases (after (expiry_of s t) now)) [
      | inl later ↦ inl (
          ap (λ o. fire_head now s o) first
          ∙ ap
              (λ (b : Bool).
                if b then none else some (((s.timers t).callback, (s.timers t).arg), rearm now t s))
              later)
      | inr due ↦ inr (
        t,
        ((s.timers t).callback, (s.timers t).arg),
        mem_of_head t s.active_timers first,
        due,
        ap (λ o. fire_head now s o) first
            ∙ ap
                (λ (b : Bool).
                  if b
                  then none
                  else some (((s.timers t).callback, (s.timers t).arg), rearm now t s))
                due,
      )
    ]
  ]

-- The loop ended, and the timer that it looked at last is not due.
pub record Ended (fuel now : ℕ) (s : Service) : Type 0 where
  pub calls : List (Option ℕ × ℕ)
  pub left_over : Service
  pub ends : fire_all fuel now s ≡ some (calls, left_over)
  pub nothing_due : fire now left_over ≡ none
  pub valid : ServiceValid left_over
  pub periods : HasPeriods left_over

fire_all_load :
    (fuel now : ℕ) (s : Service) (small : now < word)
    → ServiceValid s
    → HasPeriods s
    → load now small s < fuel
    → Ended fuel now s
unfolding fire_all
fire_all_load zero now s small v p enough = absurd (omega arith)
fire_all_load (suc n) now s small v p enough = elim (fire-cases now small s) [
  | inl over ↦ record {
    calls = [];
    left_over = s;
    ends = rw (fire_all, over) refl;
    nothing_due = over;
    valid = v;
    periods = p;
  }
  | inr (t, call, m, due, fired) ↦
      let less = load-rearm now small v t m due p in
      let rest =
        fire_all_load n now (rearm now t s) small (rearm-ServiceValid v t now m)
          (rearm-HasPeriods now small s t p) (omega (arith, less, enough)) in
      record {
        calls = call ∷ rest.calls;
        left_over = rest.left_over;
        ends = rw (fire_all, fired) (rw rest.ends refl);
        nothing_due = rest.nothing_due;
        valid = rest.valid;
        periods = rest.periods;
      }
]

-- In a valid service whose periodic timers have periods above 0 and below 2^31, and with a tick
-- count below 2^32: while the tick count stands still and the callbacks change no timer, the inner
-- loop of the service task ends, within two rounds for each active timer and one more, its last
-- look finds no timer due, and the service is still valid and has such periods.
pub fire_all-Ended :
    {s : Service} {now : ℕ}
    → ServiceValid s
    → HasPeriods s
    → now < word
    → Ended (suc (2 * length s.active_timers)) now s
fire_all-Ended {s} {now} v p small =
    fire_all_load (suc (2 * length s.active_timers)) now s small v p
      (omega (arith, total-le now (expiry_of s) s.active_timers))
