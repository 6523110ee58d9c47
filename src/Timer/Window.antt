-- ===== src/Timer/Window.antt =====
-- kernel/src/timer.c: the window on which the list of active timers is sorted moves on with the tick count.
use nimble_rtos.Common.{ℕ, ◌<◌, ◌≤◌, ◌≡◌, refl, true, some, List, [], ◌∷◌, arith, head?}
use nimble_rtos.Common.Tids.{mem, mem_of_head}
use nimble_rtos.Common.Words.{sub32, not_before, word}
use nimble_rtos.Waiters.Sorted.{all_at_most, is_sorted, all_at_most-mem, head_is_highest}
use nimble_rtos.Timer.{Service, expiry_of, after}
use nimble_rtos.Timer.Order.{ServiceSorted, within, urgency}

all_at_most_intro :
    (prio : ℕ → ℕ) (p : ℕ) (xs : List ℕ)
    → ((x : ℕ) → mem x xs ≡ true → prio x ≤ p)
    → all_at_most prio p xs ≡ true
unfolding all_at_most mem
all_at_most_intro prio p [] below = refl
all_at_most_intro prio p (x ∷ xs) below =
    let first = below x (ground arith) in
    let rest = all_at_most_intro prio p xs (λ y m. below y (ground arith)) in ground arith

-- The order depends only on which of two members has the higher priority.
is_sorted_mono :
    (p q : ℕ → ℕ) (xs : List ℕ)
    → ((a b : ℕ) → mem a xs ≡ true → mem b xs ≡ true → p a ≤ p b → q a ≤ q b)
    → is_sorted p xs ≡ true
    → is_sorted q xs ≡ true
unfolding is_sorted mem
is_sorted_mono p q [] same so = refl
is_sorted_mono p q (x ∷ xs) same so =
    let rest =
      is_sorted_mono p q xs (λ a b ma mb. same a b (ground arith) (ground arith)) (ground arith) in
    let below = all_at_most_intro q (q x) xs (λ a ma.
      same a x (ground arith) (ground arith) (all_at_most-mem p (p x) a xs (ground arith) ma)) in
    ground arith

later_within :
    (base next e : ℕ)
    → base < word
    → within base next ≡ true
    → within base e ≡ true
    → sub32 next base ≤ sub32 e base
    → within next e ≡ true
unfolding sub32
later_within base next e small wn we later = ground arith

urgency_later :
    (base next a b : ℕ)
    → base < word
    → within base next ≡ true
    → within base a ≡ true
    → within base b ≡ true
    → sub32 next base ≤ sub32 a base
    → sub32 next base ≤ sub32 b base
    → urgency base a ≤ urgency base b
    → urgency next a ≤ urgency next b
unfolding sub32
urgency_later base next a b small wn wa wb la lb order = ground arith

module _ {base : ℕ} {s : Service} (small : base < word) (o : ServiceSorted base s) where
  -- The window may start at any tick that no active timer expires before.
  pub moved-ServiceSorted :
      (next : ℕ)
      → within base next ≡ true
      → ((x : ℕ) → mem x s.active_timers ≡ true → sub32 next base ≤ sub32 (expiry_of s x) base)
      → ServiceSorted next s
  moved-ServiceSorted next wn later = record {
    inside = λ x m. later_within base next (expiry_of s x) small wn (o.inside x m) (later x m);
    ordered =
        is_sorted_mono (λ x. urgency base (expiry_of s x)) (λ x. urgency next (expiry_of s x))
          s.active_timers
          (λ a b ma mb h.
            urgency_later base next (expiry_of s a) (expiry_of s b) small wn (o.inside a ma)
              (o.inside b mb) (later a ma) (later b mb) h)
          o.ordered;
  }

  -- The first timer is the soonest.
  first_soonest :
      (t x : ℕ)
      → head? s.active_timers ≡ some t
      → mem x s.active_timers ≡ true
      → sub32 (expiry_of s t) base ≤ sub32 (expiry_of s x) base
  unfolding sub32
  first_soonest t x first m =
      let order =
        head_is_highest (λ y. urgency base (expiry_of s y)) t x s.active_timers o.ordered first m in
      let wt = o.inside t (mem_of_head t s.active_timers first) in
      let wx = o.inside x m in ground arith

  pub first-not_before :
      (t x : ℕ)
      → head? s.active_timers ≡ some t
      → mem x s.active_timers ≡ true
      → not_before (expiry_of s x) (expiry_of s t) ≡ true
  unfolding sub32 not_before
  first-not_before t x first m =
      let order = first_soonest t x first m in
      let wt = o.inside t (mem_of_head t s.active_timers first) in
      let wx = o.inside x m in ground arith

  pub at_first-ServiceSorted :
      (t : ℕ) → head? s.active_timers ≡ some t → ServiceSorted (expiry_of s t) s
  at_first-ServiceSorted t first =
      moved-ServiceSorted (expiry_of s t) (o.inside t (mem_of_head t s.active_timers first))
        (λ x m. first_soonest t x first m)

  pub at_now-ServiceSorted :
      (now : ℕ)
      → within base now ≡ true
      → ((x : ℕ) → mem x s.active_timers ≡ true → after (expiry_of s x) now ≡ true)
      → ServiceSorted now s
  unfolding sub32 not_before
  at_now-ServiceSorted now wn undue =
      moved-ServiceSorted now wn (λ x m. let u = undue x m in let w = o.inside x m in ground arith)
