-- ===== src/Port/Frame.antt =====
-- port/arch/cortex-m4/task_stack_init.c: where the pushes go, and what they write.
use nimble_rtos.Common.{
  ℕ, zero, suc, ◌-◌, ◌<◌, ◌≤◌, ◌≡◌, refl, List, [], ◌∷◌, some, arith, length, get_elem?, ◌⊎◌,
  update,
}
use nimble_rtos.Port.{Memory, push_all}

pub push_all-sp : (vs : List ℕ) (sp : ℕ) (m : Memory) → (push_all vs sp m).0 ≡ sp - length vs
unfolding push_all
push_all-sp [] sp m = omega arith
push_all-sp (v ∷ vs) sp m = omega (arith, push_all-sp vs (sp - 1) (update m (sp - 1) v))

pub push_all_outside :
    (vs : List ℕ) (sp a : ℕ) (m : Memory)
    → length vs ≤ sp
    → (a < sp - length vs) ⊎ (sp ≤ a)
    → (push_all vs sp m).1 a ≡ m a
unfolding push_all
push_all_outside [] sp a m room out = refl
push_all_outside (v ∷ vs) sp a m room out =
    ground (arith, push_all_outside vs (sp - 1) a (update m (sp - 1) v))

pub push_all_at :
    (vs : List ℕ) (sp i : ℕ) (m : Memory)
    → length vs ≤ sp
    → i < length vs
    → get_elem? vs i ≡ some ((push_all vs sp m).1 (sp - 1 - i))
unfolding push_all
push_all_at [] sp i m room h = absurd (omega arith)
push_all_at (v ∷ vs) sp zero m room h =
    let e : sp - 1 - 0 ≡ sp - 1 = omega arith in
    ground (arith, push_all_outside vs (sp - 1) (sp - 1) (update m (sp - 1) v))
push_all_at (v ∷ vs) sp (suc i) m room h =
    let e : sp - 1 - suc i ≡ sp - 1 - 1 - i = omega arith in
    ground (arith, push_all_at vs (sp - 1) i (update m (sp - 1) v))
