-- ===== src/Port/Context/Swapping.antt =====
-- port/arch/cortex-m4/context_switch.S: a switch moves every task's registers and stack pointer
-- and loses none.
use nimble_rtos.Common.{
  ℕ, ◌+◌, ◌-◌, ◌<◌, ◌≤◌, ◌≡◌, refl, ◌∙◌, Bool, true, false, none, some, ◌⊎◌, inl, inr, ◌==◌, arith,
  Bool-cases,
}
use nimble_rtos.Kernel.{Kernel}
use nimble_rtos.Scheduler.{pendsv}
use nimble_rtos.Scheduler.Invariant.{WellFormed}
use nimble_rtos.Scheduler.Moves.{rewrite_tcb-WellFormed}
use nimble_rtos.Scheduler.Switching.{is_runnable, CurrentLive, pendsv-Switched}
use nimble_rtos.Port.{Memory, push_all}
use nimble_rtos.Port.Context.{
  Registers, Machine, stmdb, ldmia, set_sp, save_outgoing, load_incoming, finish_switch,
  pendsv_handler,
}

-- What a task has in the processor while it runs, and on its stack while it does not.
pub record Context : Type 0 where
  pub registers : Registers
  pub psp : ℕ

abbrev pub saved_context : ℕ → Machine → Context
saved_context t s =
    let sp = (s.kernel.tcbs t).sp in record { registers = ldmia sp s.memory; psp = sp + 8 }

abbrev loaded_context : Machine → Context
loaded_context s = record { registers = s.registers; psp = s.psp }

abbrev pub runs_now : ℕ → Kernel → Bool
runs_now t k = elim k.current_tcb [ none ↦ false | some c ↦ c == t ]

abbrev pub context_of : ℕ → Machine → Context
context_of t s = elim (runs_now t s.kernel) [ true ↦ loaded_context s | false ↦ saved_context t s ]

stmdb-outside :
    (r : Registers) (sp a : ℕ) (m : Memory)
    → 8 ≤ sp
    → (a < sp - 8) ⊎ (sp ≤ a)
    → (stmdb r sp m).1 a ≡ m a
unfolding stmdb push_all
stmdb-outside r sp a m room out = ground arith

stmdb-pointer : (r : Registers) (sp : ℕ) (m : Memory) → (stmdb r sp m).0 ≡ sp - 8
unfolding stmdb push_all
stmdb-pointer r sp m = omega arith

ldmia-stmdb : (r : Registers) (sp : ℕ) (m : Memory) → 8 ≤ sp → ldmia (sp - 8) (stmdb r sp m).1 ≡ r
unfolding stmdb push_all ldmia
ldmia-stmdb r sp m room = ground arith

ldmia_elsewhere :
    (r : Registers) (psp sp : ℕ) (m : Memory)
    → 8 ≤ psp
    → (sp + 8 ≤ psp - 8) ⊎ (psp ≤ sp)
    → ldmia sp (stmdb r psp m).1 ≡ ldmia sp m
unfolding ldmia
ldmia_elsewhere r psp sp m room apart =
    ground (arith, at 0, at 1, at 2, at 3, at 4, at 5, at 6, at 7)
  where
    at : (i : ℕ) → i < 8 → (stmdb r psp m).1 (sp + i) ≡ m (sp + i)
    at i h = stmdb-outside r psp (sp + i) m room (ground arith)

-- The words that `t` keeps on its stack are not where the outgoing task pushes its own.
abbrev pub Apart : Machine → ℕ → Type 0
Apart s t = let sp = (s.kernel.tcbs t).sp in (sp + 8 ≤ s.psp - 8) ⊎ (s.psp ≤ sp)

-- What the handler leaves behind, where `c` ran before.
pub record Swapped (s : Machine) (c : ℕ) (s' : Machine) : Type 0 where
  pub switched : pendsv (set_sp c (s.psp - 8) s.kernel) ≡ some s'.kernel
  pub contexts : (t : ℕ) → (t ≡ c) ⊎ Apart s t → context_of t s' ≡ context_of t s
  pub stacks : (a : ℕ) → (a < s.psp - 8) ⊎ (s.psp ≤ a) → s'.memory a ≡ s.memory a
  pub same_basepri : s'.basepri ≡ s.basepri

module _ (s : Machine) (c : ℕ) (cur : s.kernel.current_tcb ≡ some c) (room : 8 ≤ s.psp) where
  -- The machine when the scheduler is called.
  abbrev saved : Machine
  saved = record s {
    memory = (stmdb s.registers s.psp s.memory).1;
    kernel = set_sp c (s.psp - 8) s.kernel;
  }

  save_outgoing-saved : save_outgoing s ≡ saved
  unfolding save_outgoing
  save_outgoing-saved = rw cur (rw (stmdb-pointer s.registers s.psp s.memory) refl)

  saved_current : saved_context c saved ≡ loaded_context s
  saved_current = ground (arith, ldmia-stmdb s.registers s.psp s.memory)

  saved_other : (t : ℕ) → (t == c) ≡ false → Apart s t → saved_context t saved ≡ saved_context t s
  saved_other t other apart =
      let same : (saved.kernel.tcbs t).sp ≡ (s.kernel.tcbs t).sp = ground arith in
      rw same (rw (ldmia_elsewhere s.registers s.psp (s.kernel.tcbs t).sp s.memory room apart) refl)

  saved-context : (t : ℕ) → (t ≡ c) ⊎ Apart s t → saved_context t saved ≡ context_of t s
  saved-context t h = elim (Bool-cases (t == c)) [
    | inl same ↦ ground (arith, saved_current)
    | inr other ↦ ground (arith, saved_other t other)
  ]

  -- The machine after the switch to `t`.
  abbrev switched_to : ℕ → Kernel → Machine
  switched_to t k = record s {
    registers = ldmia (k.tcbs t).sp saved.memory;
    psp = (k.tcbs t).sp + 8;
    memory = saved.memory;
    kernel = k;
  }

  pendsv_handler-switched :
      (t : ℕ) (k : Kernel)
      → pendsv saved.kernel ≡ some k
      → k.current_tcb ≡ some t
      → pendsv_handler s ≡ some (switched_to t k)
  unfolding pendsv_handler finish_switch load_incoming
  pendsv_handler-switched t k e now = rw save_outgoing-saved (rw e (rw now refl))

  switched-context :
      (t x : ℕ) (k : Kernel)
      → k.current_tcb ≡ some t
      → (k.tcbs x).sp ≡ (saved.kernel.tcbs x).sp
      → context_of x (switched_to t k) ≡ saved_context x saved
  switched-context t x k now same = elim (Bool-cases (t == x)) [
    | inl here ↦ ground arith
    | inr other ↦ ground arith
  ]

  switched-Swapped :
      (t : ℕ) (k : Kernel)
      → pendsv saved.kernel ≡ some k
      → k.current_tcb ≡ some t
      → ((x : ℕ) → (k.tcbs x).sp ≡ (saved.kernel.tcbs x).sp)
      → Swapped s c (switched_to t k)
  switched-Swapped t k e now same = record {
    switched = e;
    contexts = λ x h. switched-context t x k now (same x) ∙ saved-context x h;
    stacks = λ a h. stmdb-outside s.registers s.psp a s.memory room h;
    same_basepri = refl;
  }

-- In a well-formed kernel with a current task in use and a task that can run, and with 8 words of
-- room below the process stack pointer: PendSV ends, does to the scheduler what the switch does,
-- writes only those 8 words, keeps BASEPRI, and leaves every task whose saved words do not overlap
-- them, and the outgoing one, with the registers r4 to r11 and the stack pointer that it had, in
-- the processor if it runs and on its stack if not.
pub pendsv_handler-Swapped :
    {live : ℕ → Bool} {s : Machine}
    → WellFormed live s.kernel
    → CurrentLive live s.kernel
    → (i : ℕ) → live i ≡ true
    → is_runnable (s.kernel.tcbs i).state ≡ true
    → (c : ℕ) → s.kernel.current_tcb ≡ some c
    → 8 ≤ s.psp
    → (s' : Machine) × (pendsv_handler s ≡ some s') × Swapped s c s'
pendsv_handler-Swapped {live} {s} wf cl i l r c cur room =
    let (t, k, w) =
      pendsv-Switched {k = set_sp c (s.psp - 8) s.kernel}
        (rewrite_tcb-WellFormed wf c (record (s.kernel.tcbs c) { sp = s.psp - 8 }) refl refl) cl i l
        (ground arith) in
    (
      switched_to s c cur room t k,
      pendsv_handler-switched s c cur room t k w.switched w.current,
      switched-Swapped s c cur room t k w.switched w.current w.same_sp,
    )
