-- ===== src/Port/Context/Starting.antt =====
-- port/arch/cortex-m4/context_switch.S: SVC_Handler on the stack that task_stack_init.c prepared.
use nimble_rtos.Common.{ℕ, ◌+◌, ◌-◌, ◌<◌, ◌≤◌, ◌≡◌, refl, some, arith, get_elem?}
use nimble_rtos.Kernel.{Status, Kernel}
use nimble_rtos.Port.{Memory, frame}
use nimble_rtos.Port.Context.{Machine, ldmia, load_incoming, svc_handler}
use nimble_rtos.Task.Stack.{FreshStack}

-- The task is about to enter `fn`: the hardware pops the eight words from the stack pointer on to
-- r0, r1, r2, r3, r12, LR, PC and xPSR.
pub record Started (exit_trap fn arg top : ℕ) (s' : Machine) : Type 0 where
  pub pointer : s'.psp ≡ top - 8
  pub unmasked : s'.basepri ≡ 0
  pub first_argument : s'.memory s'.psp ≡ arg
  pub word_1 : s'.memory (s'.psp + 1) ≡ 0x01010101
  pub word_2 : s'.memory (s'.psp + 2) ≡ 0x02020202
  pub word_3 : s'.memory (s'.psp + 3) ≡ 0x03030303
  pub word_12 : s'.memory (s'.psp + 4) ≡ 0x12121212
  pub link : s'.memory (s'.psp + 5) ≡ exit_trap
  pub program_counter : s'.memory (s'.psp + 6) ≡ fn
  pub status_word : s'.memory (s'.psp + 7) ≡ 0x01000000
  pub in_r4 : s'.registers.r4 ≡ 0x04040404
  pub in_r5 : s'.registers.r5 ≡ 0x05050505
  pub in_r6 : s'.registers.r6 ≡ 0x06060606
  pub in_r7 : s'.registers.r7 ≡ 0x07070707
  pub in_r8 : s'.registers.r8 ≡ 0x08080808
  pub in_r9 : s'.registers.r9 ≡ 0x09090909
  pub in_r10 : s'.registers.r10 ≡ 0x10101010
  pub in_r11 : s'.registers.r11 ≡ 0x11111111

module _ {exit_trap t fn arg base words : ℕ} {m : Memory} {a : Status × Memory × Kernel}
    (fresh : FreshStack exit_trap t fn arg base words m a) (room : 16 ≤ words) (s : Machine)
    (cur : s.kernel.current_tcb ≡ some t) (same_sp : (s.kernel.tcbs t).sp ≡ (a.2.tcbs t).sp)
    (kept : (x : ℕ) → base ≤ x → x < base + words → s.memory x ≡ a.1 x) where
  word_of :
      (i : ℕ)
      → i < 16
      → get_elem? (frame exit_trap fn arg) i ≡ some (s.memory (base + words - 1 - i))
  word_of i h =
      let same = kept (base + words - 1 - i) (omega arith) (omega arith) in
      rw same (fresh.framed i h)

  abbrev loaded : Machine
  loaded =
      let sp = (s.kernel.tcbs t).sp in
      record s { registers = ldmia sp s.memory; psp = sp + 8; basepri = 0 }

  svc_handler-loaded : svc_handler s ≡ some loaded
  unfolding svc_handler load_incoming
  svc_handler-loaded = rw cur refl

  loaded-Started : Started exit_trap fn arg (base + words) loaded
  unfolding ldmia
  loaded-Started = record {
    pointer = ground (arith, fresh.pointer);
    unmasked = refl;
    first_argument = ground (arith, fresh.pointer, word_of 7);
    word_1 = ground (arith, fresh.pointer, word_of 6);
    word_2 = ground (arith, fresh.pointer, word_of 5);
    word_3 = ground (arith, fresh.pointer, word_of 4);
    word_12 = ground (arith, fresh.pointer, word_of 3);
    link = ground (arith, fresh.pointer, word_of 2);
    program_counter = ground (arith, fresh.pointer, word_of 1);
    status_word = ground (arith, fresh.pointer, word_of 0);
    in_r4 = ground (arith, fresh.pointer, word_of 15);
    in_r5 = ground (arith, fresh.pointer, word_of 14);
    in_r6 = ground (arith, fresh.pointer, word_of 13);
    in_r7 = ground (arith, fresh.pointer, word_of 12);
    in_r8 = ground (arith, fresh.pointer, word_of 11);
    in_r9 = ground (arith, fresh.pointer, word_of 10);
    in_r10 = ground (arith, fresh.pointer, word_of 9);
    in_r11 = ground (arith, fresh.pointer, word_of 8);
  }

  -- SVC on a current task whose stack is as `nimble_task_create` left it loads each of the
  -- registers r4 to r11 with its word of the prepared frame and sets BASEPRI to 0; the stack
  -- pointer then lies 8 words below the top of the stack, where the words that the processor pops
  -- are the argument, the four words for r1, r2, r3 and r12, the exit trap, the function and the
  -- status word with the Thumb bit.
  pub svc_handler-Started :
      (s' : Machine) × (svc_handler s ≡ some s') × Started exit_trap fn arg (base + words) s'
  svc_handler-Started = (loaded, svc_handler-loaded, loaded-Started)
