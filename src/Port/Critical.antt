-- ===== src/Port/Critical.antt =====
-- port/arch/cortex-m4/exception_handlers.c: critical sections by BASEPRI, and the handler of the
-- tick. BASEPRI is a number that the two functions pass on.
use nimble_rtos.Common.{
  ℕ, suc, ◌*◌, ◌^◌, ◌≡◌, refl, Bool, true, not, ◌&&◌, List, [], ◌∷◌, ◌++◌, ◌==◌, ltb, leb, arith,
  ◌⊎◌, inl, inr,
}
use nimble_rtos.Kernel.{Kernel}
use nimble_rtos.Scheduler.{tick}

abbrev pub kernel_syscall_basepri : ℕ
kernel_syscall_basepri = 5 * 2 ^ 4

-- The old value, to be handed back, and the new one.
unfoldable pub enter_critical : ℕ → ℕ × ℕ
enter_critical basepri = (basepri, kernel_syscall_basepri)

unfoldable pub exit_critical : ℕ → ℕ → ℕ
exit_critical saved_state basepri = saved_state

unfoldable pub systick_handler : ℕ → Kernel → ℕ × Kernel
unfolding enter_critical exit_critical
systick_handler basepri k =
    let crit = enter_critical basepri in (exit_critical crit.0 crit.1, tick k)

-- The processor holds back an interrupt whose priority is not below a BASEPRI other than 0.
abbrev pub masked : ℕ → ℕ → Bool
masked basepri priority = not (basepri == 0) && leb basepri priority

-- Code between whose accesses critical sections begin and end, each inside another or after it.
pub data Code : Type 0 where
  done : Code
  access : Code → Code
  section : Code → Code → Code

-- BASEPRI after the code.
unfoldable pub run_code : Code → ℕ → ℕ
unfolding enter_critical exit_critical
run_code done b = b
run_code (access c) b = run_code c b
run_code (section body rest) b =
    let crit = enter_critical b in run_code rest (exit_critical crit.0 (run_code body crit.1))

-- For each access, in how many sections it stands and the BASEPRI it is made under.
unfoldable pub accesses : Code → ℕ → ℕ → List (ℕ × ℕ)
unfolding enter_critical exit_critical run_code
accesses done depth b = []
accesses (access c) depth b = (depth, b) ∷ accesses c depth b
accesses (section body rest) depth b =
    let crit = enter_critical b in
    accesses body (suc depth) crit.1
    ++ accesses rest depth (exit_critical crit.0 (run_code body crit.1))

-- An interrupt of the priority is held back at the accesses inside a section, if it is one that may
-- call the kernel, and at no others.
abbrev pub AsDeclared : ℕ → List (ℕ × ℕ) → Type 0
AsDeclared priority [] = Unit
AsDeclared priority ((depth, b) ∷ more) =
    (masked b priority ≡ (ltb 0 depth && leb kernel_syscall_basepri priority))
    × AsDeclared priority more

run_code-basepri : (c : Code) (b : ℕ) → run_code c b ≡ b
unfolding run_code
run_code-basepri done b = refl
run_code-basepri (access c) b = run_code-basepri c b
run_code-basepri (section body rest) b = run_code-basepri rest b

-- BASEPRI is 0 outside every section and the kernel's value inside.
abbrev Fits : ℕ → ℕ → Type 0
Fits depth b = ((depth ≡ 0) × (b ≡ 0)) ⊎ ((ltb 0 depth ≡ true) × (b ≡ kernel_syscall_basepri))

module _ (priority : ℕ) where
  AsDeclared-append :
      (xs ys : List (ℕ × ℕ))
      → AsDeclared priority xs
      → AsDeclared priority ys
      → AsDeclared priority (xs ++ ys)
  AsDeclared-append [] ys h k = k
  AsDeclared-append ((depth, b) ∷ xs) ys (here, h) k = (here, AsDeclared-append xs ys h k)

  accesses-AsDeclared :
      (c : Code) (depth b : ℕ) → Fits depth b → AsDeclared priority (accesses c depth b)
  unfolding accesses
  accesses-AsDeclared done depth b h = tt
  accesses-AsDeclared (access c) depth b h = (ground arith, accesses-AsDeclared c depth b h)
  accesses-AsDeclared (section body rest) depth b h =
      AsDeclared-append (accesses body (suc depth) kernel_syscall_basepri) (accesses rest depth b)
        (accesses-AsDeclared body (suc depth) kernel_syscall_basepri (inr (ground arith, refl)))
        (accesses-AsDeclared rest depth b h)

  -- In code with critical sections nested in any way, started with BASEPRI 0, BASEPRI is 0 at the
  -- end, and an interrupt is held back at exactly the accesses that stand in some section, if its
  -- priority is numerically at least 0x50, and at none otherwise.
  pub run_code-AsDeclared : (c : Code) → (run_code c 0 ≡ 0) × AsDeclared priority (accesses c 0 0)
  run_code-AsDeclared c = (run_code-basepri c 0, accesses-AsDeclared c 0 0 (inl (refl, refl)))
