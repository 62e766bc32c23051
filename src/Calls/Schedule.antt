-- ===== src/Calls/Schedule.antt =====
-- kern/syscall/schedule.c
use bradyp_os.Base.{
  ℕ, ◌-◌, ◌^◌, Bool, false, not, ◌&&◌, Option, none, some, ltb, ◌==◌, if◌then◌else◌,
}
use bradyp_os.Kernel.{ThreadState, Kernel}
use bradyp_os.Memory.Utcb
use bradyp_os.Memory.{
  load_stack, save_stack, save_utcb, stack_r0, stack_r1, stack_r2, stack_r3, ctx_r4,
}
use bradyp_os.Thread.{find_thread_by_global_id}
use bradyp_os.Scheduler.{set_thread_priority}
use bradyp_os.Ipc.{same_space}
use bradyp_os.Calls.{error_invalid_thread, error_no_privilege, error_invalid_parameter}

-- `caller->utcb->error = error; sp[THREAD_CTX_STACK_R0] = 0;`
unfoldable pub refuse : Kernel → (error : ℕ) → Kernel
unfolding save_utcb save_stack
refuse k error = save_stack (save_utcb k k.caller Utcb.error error) k.caller stack_r0 0

-- `(unsigned)-1`, which leaves a parameter as it is.
abbrev pub unchanged : ℕ
unchanged = 2 ^ 32 - 1

-- `enum L4_tstate`, by the state of the thread.
unfoldable pub tstate : ThreadState → ℕ
tstate ThreadState.inactive = 2
tstate ThreadState.active = 7
tstate ThreadState.runnable = 3
tstate ThreadState.svc_blocked = 7
tstate ThreadState.recv_blocked = 6
tstate ThreadState.send_blocked = 4
tstate ThreadState.paused = 1

-- The thread's scheduler exists and shares the address space of the caller.
unfoldable pub may_schedule : Kernel → (scheduler_tcb : Option ℕ) → Bool
may_schedule k none = false
may_schedule k (some t) = same_space (k.tcb_store k.caller).space (k.tcb_store t).space

unfoldable pub apply_schedule : Kernel → (dest_tcb prio : ℕ) → Kernel
unfolding set_thread_priority save_utcb save_stack tstate
apply_schedule k t prio =
    let k1 = if prio == unchanged then k else set_thread_priority k t prio in
    let k2 = save_utcb k1 t Utcb.processor_no 0 in
    save_stack (save_stack k2 k2.caller stack_r0 (tstate (k2.tcb_store t).state)) k2.caller stack_r1
      0

unfoldable pub schedule_thread :
    Kernel → (dest_tcb : Option ℕ) → (processor prio preemption : ℕ) → Option Kernel
unfolding refuse may_schedule apply_schedule find_thread_by_global_id
schedule_thread k none processor prio preemption = some (refuse k error_invalid_thread)
schedule_thread k (some t) processor prio preemption =
    if not (may_schedule k (find_thread_by_global_id k (k.tcb_store t).scheduler))
    then some (refuse k error_no_privilege)
    else if not (processor == unchanged) && not (processor == 0)
    then some (refuse k error_invalid_parameter)
    else if not (prio == unchanged) && ltb prio (k.tcb_store k.caller).priority
    then some (refuse k error_invalid_parameter)
    else if not (preemption == unchanged)
    then none
    else some (apply_schedule k t prio)

unfoldable pub syscall_schedule : Kernel → Option Kernel
unfolding schedule_thread find_thread_by_global_id load_stack
syscall_schedule k =
    let dest = load_stack k k.caller stack_r0 in
    schedule_thread k (find_thread_by_global_id k dest) (load_stack k k.caller stack_r2)
      (load_stack k k.caller stack_r3) ((k.tcb_store k.caller).ctx.r ctx_r4)
