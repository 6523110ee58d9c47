-- ===== src/Scheduler.antt =====
-- kernel/src/scheduler.c, one function for each of its functions. An intrusive list is the sequence
-- of the tasks on it, so that `nimble_list_remove(&tcb->link)` takes the task off whichever list holds
-- its `link`.
pub mod Invariant
pub mod Moves
pub mod Waking
pub mod Selection
pub mod Switching
pub mod Timeouts
pub mod Slicing
pub mod Starting
use nimble_rtos.Common.{
  ℕ, ◌-◌, true, false, Option, none, some, List, [], ◌∷◌, ◌++◌, ◌==◌, if◌then◌else◌, update, is_nil,
  head?,
}
use nimble_rtos.Common.Tids.{remove}
use nimble_rtos.Common.Bits.{set_bit, clear_bit, clz}
use nimble_rtos.Common.Words.{add32, not_before}
use nimble_rtos.Kernel.{
  Status, ok, err_timeout, TaskState, ready, running, blocked, is_running, Tcb, Kernel,
  wait_forever,
}

-- A write to one TCB.
abbrev pub set_tcb : ℕ → Tcb → Kernel → Kernel
set_tcb t c k = record k { tcbs = update k.tcbs t c }

abbrev pub set_state : ℕ → TaskState → Kernel → Kernel
set_state t s k = set_tcb t (record (k.tcbs t) { state = s }) k

-- `nimble_list_remove(&tcb->link)`
unfoldable pub remove_link : ℕ → Kernel → Kernel
remove_link t k = record k {
  ready_lists = λ p. remove t (k.ready_lists p);
  delayed_list = remove t k.delayed_list;
}

-- `nimble_list_remove(&tcb->event_link)`
unfoldable pub remove_event_link : ℕ → Kernel → Kernel
remove_event_link t k = record k { wait_lists = λ w. remove t (k.wait_lists w) }

-- `nimble_list_insert_tail(&delayed_list, &tcb->link)`
unfoldable pub insert_delayed : ℕ → Kernel → Kernel
insert_delayed t k = record k { delayed_list = k.delayed_list ++ t ∷ [] }

-- The index of the highest set bit, `31 - clz`; `none` on 0, where the builtin is undefined.
unfoldable pub highest_set_bit : ℕ → Option ℕ
highest_set_bit bitmap = if bitmap == 0 then none else some (31 - clz 32 bitmap)

unfoldable pub add_ready : ℕ → Kernel → Kernel
add_ready t k =
    let p = (k.tcbs t).priority in
    let k' = set_state t ready k in
    record k' {
      ready_lists = update k'.ready_lists p (k'.ready_lists p ++ t ∷ []);
      ready_bitmap = set_bit k'.ready_bitmap p;
    }

unfoldable pub scheduler_remove : ℕ → Kernel → Kernel
unfolding remove_link
scheduler_remove t k =
    let p = (k.tcbs t).priority in
    let k' = remove_link t k in
    record k' {
      ready_bitmap =
          if is_nil (k'.ready_lists p) then clear_bit 32 k'.ready_bitmap p else k'.ready_bitmap;
    }

unfoldable pub block_current_delay : ℕ → ℕ → Kernel → Kernel
unfolding scheduler_remove insert_delayed
block_current_delay t wake_tick k =
    let k' = scheduler_remove t k in
    insert_delayed t (set_tcb t (record (k'.tcbs t) { wake_tick = wake_tick; state = blocked }) k')

unfoldable pub prepare_block : ℕ → ℕ → Kernel → Kernel
unfolding scheduler_remove insert_delayed
prepare_block t timeout_ticks k =
    let k' = set_state t blocked (scheduler_remove t k) in
    if timeout_ticks == wait_forever
    then k'
    else insert_delayed t
        (set_tcb t (record (k'.tcbs t) { wake_tick = add32 k'.tick_count timeout_ticks }) k')

-- A waiter is unlinked from both lists, told why it woke, and made ready.
unfoldable pub wake : ℕ → Status → Kernel → Kernel
unfolding remove_link remove_event_link add_ready
wake t result k =
    let k' = remove_link t (remove_event_link t k) in
    add_ready t (set_tcb t (record (k'.tcbs t) { last_wait_result = result }) k')

unfoldable pub wake_first : Option ℕ → Kernel → Option ℕ × Kernel
unfolding wake
wake_first none k = (none, k)
wake_first (some t) k = (some t, wake t ok k)

unfoldable pub wake_waiter : ℕ → Kernel → Option ℕ × Kernel
unfolding wake_first
wake_waiter w k = wake_first (head? (k.wait_lists w)) k

-- The task that was running goes to the tail of its list, if it still runs.
unfoldable pub requeue_current : Kernel → Kernel
unfolding add_ready
requeue_current k = elim k.current_tcb [
  | none ↦ k
  | some c ↦ if is_running (k.tcbs c).state then add_ready c k else k
]

-- The chosen task leaves its ready list and is marked as running.
unfoldable pub choose : Option ℕ → Kernel → Option (ℕ × Kernel)
unfolding scheduler_remove
choose none k = none
choose (some t) k =
    let k' = set_state t running (scheduler_remove t k) in some (t, record k' { next_tcb = some t })

unfoldable pub take_first : Option ℕ → Kernel → Option (ℕ × Kernel)
unfolding choose
take_first none k = none
take_first (some p) k = choose (head? (k.ready_lists p)) k

-- `none`: no bit is set, or the list of the highest set bit is empty, so that
-- `NIMBLE_CONTAINER_OF` is applied to the list head, which is in no TCB.
unfoldable pub pick : Kernel → Option (ℕ × Kernel)
unfolding highest_set_bit take_first
pick k = take_first (highest_set_bit k.ready_bitmap) k

unfoldable pub select_next : Kernel → Option (ℕ × Kernel)
unfolding requeue_current pick
select_next k = pick (requeue_current k)

-- The body of the scan of `nimble_scheduler_tick` for one node.
unfoldable pub expire : ℕ → Kernel → Kernel
unfolding wake
expire t k = if not_before k.tick_count (k.tcbs t).wake_tick then wake t err_timeout k else k

-- The scan reads the successor of a node before it unlinks the node, so it visits the list as it
-- stood at the start.
unfoldable pub scan_delayed : List ℕ → Kernel → Kernel
unfolding expire
scan_delayed [] k = k
scan_delayed (t ∷ ts) k = scan_delayed ts (expire t k)

abbrev pub request_context_switch : Kernel → Kernel
request_context_switch k = record k { pendsv_pending = true }

unfoldable pub tick : Kernel → Kernel
unfolding scan_delayed
tick k =
    let k' = record k { tick_count = add32 k.tick_count 1 } in
    request_context_switch (scan_delayed k'.delayed_list k')

-- The end of `nimble_scheduler_start`, before the start of the first task.
unfoldable pub start_with : Option (ℕ × Kernel) → Option (ℕ × Kernel)
start_with none = none
start_with (some (t, k)) = some (t, record k { next_tcb = some t; current_tcb = some t })

unfoldable pub scheduler_start : Kernel → Option (ℕ × Kernel)
unfolding select_next start_with
scheduler_start k = start_with (select_next k)

-- `nimble_current_tcb = nimble_next_tcb`, after the choice.
unfoldable pub load_next : Option (ℕ × Kernel) → Option Kernel
load_next none = none
load_next (some (t, k)) = some (record k { current_tcb = k.next_tcb })

-- PendSV_Handler of port/arch/cortex-m4/context_switch.S, as far as the scheduler's variables go.
unfoldable pub pendsv : Kernel → Option Kernel
unfolding select_next load_next
pendsv k = load_next (select_next (record k { pendsv_pending = false }))
