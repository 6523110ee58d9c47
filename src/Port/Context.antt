-- ===== src/Port/Context.antt =====
-- port/arch/cortex-m4/context_switch.S: the registers and the stack pointers in PendSV_Handler and
-- SVC_Handler. What the hardware pushes and pops by itself is left on the stack of the task, below
-- the words that the handlers push.
pub mod Swapping
pub mod Starting
use nimble_rtos.Common.{ℕ, ◌+◌, Option, none, some, List, [], ◌∷◌}
use nimble_rtos.Kernel.{Kernel}
use nimble_rtos.Scheduler.{set_tcb, pendsv}
use nimble_rtos.Port.{Memory, push_all}

-- {r4-r11}
pub record Registers : Type 0 where
  pub r4 : ℕ
  pub r5 : ℕ
  pub r6 : ℕ
  pub r7 : ℕ
  pub r8 : ℕ
  pub r9 : ℕ
  pub r10 : ℕ
  pub r11 : ℕ

pub record Machine : Type 0 where
  pub registers : Registers
  pub psp : ℕ
  pub basepri : ℕ
  pub memory : Memory
  pub kernel : Kernel

-- The lowest register goes to the lowest address.
unfoldable pub stmdb : Registers → ℕ → Memory → ℕ × Memory
unfolding push_all
stmdb r r0 m = push_all (r.r11 ∷ r.r10 ∷ r.r9 ∷ r.r8 ∷ r.r7 ∷ r.r6 ∷ r.r5 ∷ r.r4 ∷ []) r0 m

unfoldable pub ldmia : ℕ → Memory → Registers
ldmia r0 m = record {
  r4 = m r0;
  r5 = m (r0 + 1);
  r6 = m (r0 + 2);
  r7 = m (r0 + 3);
  r8 = m (r0 + 4);
  r9 = m (r0 + 5);
  r10 = m (r0 + 6);
  r11 = m (r0 + 7);
}

-- `nimble_current_tcb->sp = r0`
abbrev pub set_sp : ℕ → ℕ → Kernel → Kernel
set_sp t sp k = set_tcb t (record (k.tcbs t) { sp = sp }) k

-- PendSV_Handler up to the call of the scheduler.
unfoldable pub save_outgoing : Machine → Machine
unfolding stmdb
save_outgoing s = elim s.kernel.current_tcb [
  | none ↦ s
  | some t ↦
      let pushed = stmdb s.registers s.psp s.memory in
      record s { memory = pushed.1; kernel = set_sp t pushed.0 s.kernel }
]

-- `ldr r0, [r2]`, `ldmia r0!, {r4-r11}`, `msr psp, r0`; `none` when r2 is NULL.
unfoldable pub load_incoming : Option ℕ → Machine → Option Machine
unfolding ldmia
load_incoming none s = none
load_incoming (some t) s =
    let sp = (s.kernel.tcbs t).sp in some (record s { registers = ldmia sp s.memory; psp = sp + 8 })

-- From the return of the scheduler on.
unfoldable pub finish_switch : Option Kernel → Machine → Option Machine
unfolding load_incoming
finish_switch none s = none
finish_switch (some k) s = load_incoming k.current_tcb (record s { kernel = k })

unfoldable pub pendsv_handler : Machine → Option Machine
unfolding save_outgoing finish_switch
pendsv_handler s = let saved = save_outgoing s in finish_switch (pendsv saved.kernel) saved

-- SVC_Handler, which starts the task that `nimble_scheduler_start` chose.
unfoldable pub svc_handler : Machine → Option Machine
unfolding load_incoming
svc_handler s = load_incoming s.kernel.current_tcb (record s { basepri = 0 })
