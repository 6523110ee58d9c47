-- ===== src/System/Frames.antt =====
-- kernel/src: what each operation leaves alone, of the base priorities, the current task, and the
-- idle task.
use nimble_rtos.Common.{ℕ, ◌≡◌, ◌≢◌, refl, true, arith, Option-cases, inl, inr, head?, ◌∙◌}
use nimble_rtos.Kernel.{Kernel, Status, ok}
use nimble_rtos.Scheduler.{
  wake, wake_waiter, prepare_block, block_current_delay, request_context_switch, remove_event_link,
  scheduler_remove,
}
use nimble_rtos.Scheduler.Waking.{wake_waiter-none, wake_waiter-some}
use nimble_rtos.Scheduler.Switching.{is_runnable}
use nimble_rtos.Waiters.{wait_on, insert_waiter_priority_sorted}
use nimble_rtos.Task.{delay_task, task_suspend, task_resume}
use nimble_rtos.Mutex.{Mutex, boost, lock_wait, restore_priority}

pub record Frame (idle : ℕ) (k k' : Kernel) : Type 0 where
  pub bases : (t : ℕ) → (k'.tcbs t).base_priority ≡ (k.tcbs t).base_priority
  pub current : k'.current_tcb ≡ k.current_tcb
  pub idle_runs : is_runnable (k.tcbs idle).state ≡ true → is_runnable (k'.tcbs idle).state ≡ true

module _ (idle : ℕ) (k : Kernel) where
  pub Frame-refl : Frame idle k k
  Frame-refl = record { bases = λ t. refl; current = refl; idle_runs = λ h. h }

  wake-Frame : (t : ℕ) (r : Status) → Frame idle k (wake t r k)
  unfolding wake
  wake-Frame t r = record {
    bases = λ s. ground arith;
    current = refl;
    idle_runs = λ h. ground arith;
  }

  pub wake_waiter-Frame : (w : ℕ) → Frame idle k (wake_waiter w k).1
  wake_waiter-Frame w = elim (Option-cases (head? (k.wait_lists w))) [
    | inl nobody ↦ rw (wake_waiter-none w k nobody) Frame-refl
    | inr (t, first) ↦ rw (wake_waiter-some w t k first) (wake-Frame t ok)
  ]

  pub remove_event_link-Frame : (t : ℕ) → Frame idle k (remove_event_link t k)
  unfolding remove_event_link
  remove_event_link-Frame t = record { bases = λ s. refl; current = refl; idle_runs = λ h. h }

  module _ (self : ℕ) (other : self ≢ idle) where
    pub wait_on-Frame : (w n : ℕ) → Frame idle k (wait_on w n self k)
    unfolding wait_on prepare_block insert_waiter_priority_sorted
    wait_on-Frame w n = record {
      bases = λ s. ground arith;
      current = ground arith;
      idle_runs = λ h. ground arith;
    }

    pub delay_task-Frame : (n : ℕ) → Frame idle k (delay_task self n k)
    unfolding delay_task block_current_delay
    delay_task-Frame n = record {
      bases = λ s. ground arith;
      current = ground arith;
      idle_runs = λ h. ground arith;
    }

    pub task_suspend-Frame : Frame idle k (task_suspend self k)
    unfolding task_suspend scheduler_remove
    task_suspend-Frame = record {
      bases = λ s. ground arith;
      current = ground arith;
      idle_runs = λ h. ground arith;
    }

    pub lock_wait-Frame : (o n : ℕ) (m : Mutex) → Frame idle k (lock_wait self o n m k)
    unfolding lock_wait wait_on prepare_block insert_waiter_priority_sorted boost
    lock_wait-Frame o n m = record {
      bases = λ s. ground arith;
      current = ground arith;
      idle_runs = λ h. ground arith;
    }

  pub task_resume-Frame : (t : ℕ) → Frame idle k (task_resume t k)
  unfolding task_resume
  task_resume-Frame t = record {
    bases = λ s. ground arith;
    current = ground arith;
    idle_runs = λ h. ground arith;
  }

  pub restore_priority-Frame : (t : ℕ) → Frame idle k (restore_priority t k)
  unfolding restore_priority
  restore_priority-Frame t = record {
    bases = λ s. ground arith;
    current = refl;
    idle_runs = λ h. ground arith;
  }

pub requested-Frame :
    {idle : ℕ} {k k' : Kernel} → Frame idle k k' → Frame idle k (request_context_switch k')
requested-Frame f = record { bases = f.bases; current = f.current; idle_runs = f.idle_runs }

pub Frame-trans :
    {idle : ℕ} {k k' k'' : Kernel} → Frame idle k k' → Frame idle k' k'' → Frame idle k k''
Frame-trans f g = record {
  bases = λ t. g.bases t ∙ f.bases t;
  current = g.current ∙ f.current;
  idle_runs = λ h. g.idle_runs (f.idle_runs h);
}
