-- ===== src/Lib.antt =====
-- nimbleRTOS: a preemptive real-time kernel for the Cortex-M4, with a power supply demo on top.
--
-- The program's parts, and where each is modelled (paths from the repository's root):
--
-- * kernel/include/nimble_types.h, nimble_config.h and nimble_task.h, with the global variables of
--   kernel/src/scheduler.c, are Kernel: status codes, task states, the record `Tcb`, and the record
--   `Kernel` with the ready lists, the delayed list, the bitmap, the tick count, the current and the
--   next task. A task is named by the address of its TCB. The pending bit of PendSV, which
--   `nimble_port_request_context_switch` sets, is a field of `Kernel` too.
-- * kernel/include/nimble_list.h is IntrusiveList: the pointers of all nodes, and each list function as
--   its assignments, one after the other. Chain and Store relate a memory of pointers to the sequences
--   of nodes that its lists stand for. Sorting does so for the loop of the sorted insertion. All other
--   modules work on these sequences: a field `ready_lists p` is the sequence of the list
--   `ready_lists[p]`, `wait_lists w` that of the list whose head has the address `w`.
-- * kernel/src/scheduler.c is Scheduler, one function for each of its functions (`add_ready` for
--   `nimble_scheduler_add_ready`, and so on). `pendsv` is what PendSV_Handler does to these variables.
--   Invariant is about what holds of them between two critical sections, Moves and Waking about the
--   operations, Selection and Switching about the choice of the next task, Slicing
--   about tasks of one priority, Timeouts about the tick, Starting about `nimble_scheduler_start`.
-- * `insert_waiter_priority_sorted`, of which mutex.c, semaphore.c and queue.c each hold a copy, and the
--   way in which they block, are Waiters.
-- * kernel/src/task.c is Task.
-- * port/arch/cortex-m4 is Port: the stack frame of task_stack_init.c, with Critical for the critical sections
--   of exception_handlers.c, and Context for the registers in context_switch.S: `pendsv_handler` is the whole
--   of PendSV_Handler around `pendsv`. Swapping compares the registers and stack pointers that the tasks have
--   before and after, Starting follows SVC_Handler on a prepared frame.
-- * port/stm32f4 is Board: the registers of stm32f4_regs.h and the three functions of system_stm32f4xx.c.
-- * kernel/src/mutex.c is Mutex, kernel/src/semaphore.c is Semaphore, kernel/src/queue.c is Queue. Mutex.Nested
--   is about a task that holds two of them. Mutex.Parking
--   follows a task that waits for a mutex without a timeout through everything that other tasks and the
--   interrupts do; it asks less of the ready lists than Scheduler.Invariant, so that it also covers the runs
--   in which a boost has put them out of order.
-- * kernel/src/timer.c is Timer: the list of active timers, and the service task as `service_take` up to
--   the context switch in the take of the semaphore and `fire` for each round of its inner loop. Timer.History is any sequence of
--   its calls, of rounds and of ticks; the list is sorted on a window of half the range of the tick counter
--   (Order), which moves on with the ticks (Window), and Sleeping and Waiting keep the timeout of the service task in front of every timer.
-- * System puts the kernel together: one constructor of `Step` for each call, interrupt and switch, and
--   `Steps` for any number of them. A guard of a step that is not in the code is named there: the idle
--   task does not block, and no task asks for a mutex whose owner is ready and of lower priority.
-- * app/power_supply is PowerSupply: the shared status, the state machine of ControlTask against the faults
--   that ProtectionTask notes (Faults), the line buffer of CommsTask (Line), and the interrupt handlers as
--   steps of the kernel (Interrupts). Startup is main.c with `ps_shared_init`. Tasks has the rounds of the four
--   tasks' loops, and the way of a sample to ControlTask (Handoff). Reaction is the way from a sample
--   beyond the limits to the noted fault. Sharing is the access to `g_status`: the functions of power_supply.c
--   as a lock, single reads and writes of the members, and an unlock, with the steps of the other tasks, the
--   interrupts and the switches between any two of them. Atomic says what each function does at once,
--   Guarded is the invariant, Preserved, Entering and Leaving are the steps, Exclusion puts them together.
-- * Examples runs the code on small kernels.
--
-- How the code's ways are written. A critical section is one step: a function from the state before to
-- the state after. A call that blocks is two of them, with a context switch and the steps of other tasks
-- between: `lock` up to the switch and `lock_resume` behind it, and likewise for the others. The result
-- of the first half is `returned` with a status, or `waits`. `uint32_t` arithmetic is `add32` and `sub32`,
-- modulo 2^32; a tick comparison through `int32_t` is `not_before`. What is undefined in C is `none`: the
-- highest set bit of 0, `NIMBLE_CONTAINER_OF` of a list head, a null current task.
--
-- Fuel: the loop of the sorted insertion over pointers takes fuel, one step more than the list has nodes
-- (IntrusiveList.Sorting), and so does the inner loop of the timer service, two rounds for each active
-- timer and one more (Timer.Firing). All other loops are over the elements of a list or a count.
--
-- What the hardware does is written out where it matters: an interrupt is held back while BASEPRI is not 0
-- and not above its priority (Port.Critical), a register of the board holds what was written last, and the
-- eight words that the processor pushes and pops by itself stay on the task's stack (Port.Context).
--
-- Not modelled: the vector table and the copying of the data sections before `main`, which are assembly around
-- symbols of the linker. `ps_disable_output_hw` and `ps_uart_puts`, which are empty. What a timer's callback
-- does. Float arithmetic and `snprintf` are arguments of the functions that use them. The calls of a
-- task's loop are functions of their own, not one program; in Sharing the order in which a task makes them
-- is left open, but for the accesses between a lock and its unlock.
pub mod Common
pub mod Kernel
pub mod Scheduler
pub mod Waiters
pub mod IntrusiveList
pub mod Port
pub mod Board
pub mod Task
pub mod Mutex
pub mod Semaphore
pub mod Queue
pub mod Timer
pub mod PowerSupply
pub mod Examples
pub mod System
