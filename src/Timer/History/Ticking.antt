-- ===== src/Timer/History/Ticking.antt =====
-- kernel/src/timer.c: what a tick keeps of the list of active timers.
use nimble_rtos.Common.{
  ℕ, ◌+◌, ◌<◌, ◌≡◌, refl, true, false, none, some, List, [], ◌∷◌, arith, Bool-cases, Option-cases,
  inl, inr, head?, sym, subst,
}
use nimble_rtos.Common.Tids.{mem, mem_of_head}
use nimble_rtos.Common.Words.{add32, sub32, word}
use nimble_rtos.Kernel.{Kernel}
use nimble_rtos.Scheduler.{tick}
use nimble_rtos.Scheduler.Timeouts.{tick_counts}
use nimble_rtos.Timer.{Service, expiry_of, after}
use nimble_rtos.Timer.Members.{}
use nimble_rtos.Timer.Order.{ServiceSorted, within, none_due}
use nimble_rtos.Timer.Window.{at_first-ServiceSorted, at_now-ServiceSorted}
use nimble_rtos.Timer.History.{quarter, Punctual}
use nimble_rtos.Timer.History.Kept.{InWindow}

pub not_mem_of_no_head : (x : ℕ) (xs : List ℕ) → head? xs ≡ none → mem x xs ≡ false
unfolding mem
not_mem_of_no_head x [] nobody = refl
not_mem_of_no_head x (y ∷ ys) nobody = absurd (ground arith)

-- A later start of the window, which leaves room for one more tick.
record Rebased (s : Service) (now : ℕ) : Type 0 where
  pub base : ℕ
  pub base_small : base < word
  pub room : sub32 now base + 1 < quarter
  pub sorted : ServiceSorted base s

module _ {s : Service} {now : ℕ} (w : InWindow s now) where
  pub now_within : within w.base now ≡ true
  unfolding sub32
  now_within = let fits = w.now_small in let lag = w.lag in ground arith

  at_now :
      ((x : ℕ) → mem x s.active_timers ≡ true → after (expiry_of s x) now ≡ true) → Rebased s now
  unfolding sub32
  at_now undue = record {
    base = now;
    base_small = w.now_small;
    room = let fits = w.now_small in ground arith;
    sorted = at_now-ServiceSorted w.base_small w.sorted now now_within undue;
  }

  rebased :
      ((t : ℕ)
        → head? s.active_timers ≡ some t
        → after (expiry_of s t) now ≡ false
        → sub32 now (expiry_of s t) + 1 < quarter)
      → Rebased s now
  rebased punctual = elim (Option-cases (head? s.active_timers)) [
    | inl nobody ↦
        at_now
          (λ x m. let out = not_mem_of_no_head x s.active_timers nobody in absurd (ground arith))
    | inr (t, first) ↦ elim (Bool-cases (after (expiry_of s t) now)) [
      | inl later ↦ at_now (λ x m. none_due w.base_small w.sorted now t x now_within first later m)
      | inr due ↦
          let inside = w.sorted.inside t (mem_of_head t s.active_timers first) in
          record {
            base = expiry_of s t;
            base_small = ground arith;
            room = punctual t first due;
            sorted = at_first-ServiceSorted w.base_small w.sorted t first;
          }
    ]
  ]

lag-add32 :
    (now base : ℕ)
    → now < word
    → base < word
    → sub32 now base + 1 < quarter
    → (sub32 (add32 now 1) base < quarter) × (add32 now 1 < word)
unfolding sub32 add32
lag-add32 now base fits small room = (omega arith, omega arith)

pub ticks-InWindow :
    {s : Service} (k : Kernel)
    → InWindow s k.tick_count
    → Punctual s k
    → InWindow s (tick k).tick_count
ticks-InWindow {s} k w punctual =
    let r = rebased w punctual in
    let next = lag-add32 k.tick_count r.base w.now_small r.base_small r.room in
    let ticked : InWindow s (add32 k.tick_count 1) = record {
      valid = w.valid;
      periods = w.periods;
      base = r.base;
      base_small = r.base_small;
      now_small = next.1;
      lag = next.0;
      sorted = r.sorted;
    } in
    subst (λ (n : ℕ). InWindow s n) (sym (tick_counts k)) ticked
