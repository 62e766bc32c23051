-- ===== src/Systick.antt =====
-- kern/kalarm.c: the system timer's interrupt, which runs the events that are due. `none` means that
-- the kernel panics, or that the loop does not end within the fuel.
pub mod Due
mod Examples
use bradyp_os.Base.{ℕ, zero, suc, ◌+◌, ◌%◌, ◌^◌, Option, none, some, ◌==◌, if◌then◌else◌, ◌>>=◌}
use bradyp_os.Alarm.{Event, has_pending_kalarm, pop_kalarm_event, chain_limit}
use bradyp_os.Kernel.{ThreadState, Kernel, kalarm_reschedule, kalarm_unpause, kalarm_timeout}
use bradyp_os.Thread.{find_thread_by_global_id}
use bradyp_os.Scheduler.{set_thread_state, request_reschedule}
use bradyp_os.Ipc.Phases.{do_ipc_timeout}

unfoldable pub request_next_thread : Kernel → Kernel
unfolding request_reschedule
request_next_thread k = request_reschedule k none

unfoldable pub unpause_thread : Kernel → (payload : ℕ) → Option Kernel
unfolding find_thread_by_global_id set_thread_state request_reschedule
unpause_thread k target = elim (find_thread_by_global_id k target) [
  | none ↦ none
  | some t ↦ some (request_reschedule (set_thread_state k t ThreadState.runnable) none)
]

-- `kalarm_event_funcs[ev->type](ev->data)`; an index past the table is a fault.
unfoldable pub run_event : Kernel → Event → Option Kernel
unfolding request_next_thread unpause_thread do_ipc_timeout
run_event k ev =
    if ev.kind == kalarm_reschedule
    then some (request_next_thread k)
    else if ev.kind == kalarm_unpause
    then unpause_thread k ev.payload
    else if ev.kind == kalarm_timeout
    then some (do_ipc_timeout k ev.payload)
    else none

-- The event at the head of the queue, taken off it and run.
unfoldable pub run_first : Kernel → Option Kernel
unfolding pop_kalarm_event run_event
run_first k =
    pop_kalarm_event k.alarm >>= λ r. run_event (record k { alarm = r.1 }) ((r.1).events r.0)

unfoldable pub run_due : (fuel : ℕ) → Kernel → Option Kernel
run_due zero k = none
run_due (suc fuel) k =
    let rest = run_first k >>= λ k1. run_due fuel k1 in
    if has_pending_kalarm k.alarm then rest else some k

unfoldable pub isr_systick : Kernel → Option Kernel
unfolding run_due run_first has_pending_kalarm
isr_systick k =
    run_due chain_limit
      (record k { alarm = record (k.alarm) { current_time = (k.alarm.current_time + 1) % 2 ^ 32 } })
