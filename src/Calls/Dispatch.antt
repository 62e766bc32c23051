-- ===== src/Calls/Dispatch.antt =====
-- kern/syscall.c and kern/softirq.c: from the supervisor call to the kernel thread. `psp` is the stack
-- pointer that the processor saved, and `Interface` what the kernel interface page says of itself.
use mathlib.Core.Option
use bradyp_os.Base.{
  ℕ, zero, suc, ◌+◌, ◌/◌, ◌%◌, ◌^◌, Bool, true, not, ◌&&◌, Option, none, some, ltb, ◌==◌,
  if◌then◌else◌, ◌>>=◌,
}
use bradyp_os.Kernel.{ThreadState, Kernel}
use bradyp_os.Memory.{load, save, save_stack, stack_r0, stack_r1, stack_r2, stack_r3, ctx_r7}
use bradyp_os.Thread.{find_thread_by_global_id}
use bradyp_os.Scheduler.{set_thread_state, request_reschedule, get_current_thread, pause_thread}
use bradyp_os.Ipc.Phases.{syscall_ipc}
use bradyp_os.Calls.{unblock_caller}
use bradyp_os.Calls.Threads.{syscall_thread_control}
use bradyp_os.Calls.Spaces.{syscall_space_control, syscall_unmap}
use bradyp_os.Calls.Schedule.{syscall_schedule}

-- `enum L4_syscall_nr`
abbrev pub sys_kernel_interface : ℕ
sys_kernel_interface = 0

abbrev pub sys_space_control : ℕ
sys_space_control = 1

abbrev pub sys_thread_control : ℕ
sys_thread_control = 2

abbrev pub sys_ipc : ℕ
sys_ipc = 5

abbrev pub sys_unmap : ℕ
sys_unmap = 7

abbrev pub sys_system_clock : ℕ
sys_system_clock = 9

abbrev pub sys_thread_switch : ℕ
sys_thread_switch = 10

abbrev pub sys_schedule : ℕ
sys_schedule = 11

-- The address of `the_kip`, and the words of it that the call returns.
pub record Interface : Type 0 where
  pub address : ℕ
  pub api_version : ℕ
  pub api_flags : ℕ
  pub kernel_id : ℕ
  pub kip_fpage : ℕ

unfoldable pub softirq_schedule : Kernel → Kernel
unfolding set_thread_state
softirq_schedule k =
    set_thread_state (record k { softirq_pending = true }) k.kern_tcb ThreadState.runnable

-- The call for which the kernel thread is not needed.
unfoldable pub thread_switch : Kernel → (current_thread psp : ℕ) → Option Kernel
unfolding pause_thread request_reschedule find_thread_by_global_id load
thread_switch k t psp =
    let paused =
      if t == k.kern_tcb then some k else pause_thread k t ((k.alarm.current_time + 1) % 2 ^ 32) in
    paused >>= λ k1.
    some (request_reschedule k1 (find_thread_by_global_id k1 (load k1 psp stack_r0)))

unfoldable pub system_clock : Kernel → (psp : ℕ) → Kernel
unfolding save
system_clock k psp =
    let time = k.alarm.current_time in
    save (save k psp stack_r0 (time % 2 ^ 32)) psp stack_r1 (time / 2 ^ 32)

-- The caller blocks, and the kernel thread is to run.
unfoldable pub defer_call : Kernel → (current_thread : ℕ) → Kernel
unfolding set_thread_state softirq_schedule request_reschedule
defer_call k t =
    let k1 = set_thread_state (record k { caller = t }) t ThreadState.svc_blocked in
    let k2 = softirq_schedule k1 in request_reschedule k2 (some k2.kern_tcb)

unfoldable pub isr_svcall : Kernel → (syscall_number psp : ℕ) → Option Kernel
unfolding get_current_thread thread_switch system_clock defer_call
isr_svcall k syscall_number psp = get_current_thread k >>= λ t.
    if syscall_number == sys_thread_switch
    then thread_switch k t psp
    else if syscall_number == sys_system_clock
    then some (system_clock k psp)
    else some (defer_call k t)

module _ (kip : Interface) where
  unfoldable pub kernel_interface : Kernel → Kernel
  unfolding save_stack unblock_caller
  kernel_interface k =
      let k1 = save_stack k k.caller stack_r0 kip.address in
      let k2 = save_stack k1 k.caller stack_r1 kip.api_version in
      let k3 = save_stack k2 k.caller stack_r2 kip.api_flags in
      unblock_caller (save_stack k3 k.caller stack_r3 kip.kernel_id)

  -- The numbers that are left over do nothing.
  unfoldable pub softirq_svc : Kernel → Option Kernel
  unfolding kernel_interface syscall_space_control syscall_thread_control syscall_ipc syscall_unmap
      syscall_schedule unblock_caller
  softirq_svc k =
      let id = (k.tcb_store k.caller).ctx.r ctx_r7 in
      if id == sys_kernel_interface
      then some (kernel_interface k)
      else if id == sys_space_control
      then Option.map unblock_caller (syscall_space_control kip.kip_fpage k)
      else if id == sys_thread_control
      then syscall_thread_control k
      else if id == sys_ipc
      then syscall_ipc k
      else if id == sys_unmap
      then some (syscall_unmap k)
      else if id == sys_schedule
      then Option.map unblock_caller (syscall_schedule k)
      else if ltb id 12
      then none
      else some k

  -- `softirq_pending &= ~buf`, and the kernel thread rests where nothing is left to do.
  unfoldable pub settle : (buf : Bool) → Kernel → Kernel
  unfolding set_thread_state
  settle buf k =
      let left = k.softirq_pending && not buf in
      let k1 = record k { softirq_pending = left } in
      if left then k1 else set_thread_state k1 k1.kern_tcb ThreadState.inactive

  -- The rounds of the loop; interrupts between them are not modelled.
  unfoldable pub softirq_execute : (fuel : ℕ) → Kernel → Option Kernel
  softirq_execute zero k = none
  softirq_execute (suc fuel) k =
      let handled = if k.softirq_pending then softirq_svc k else some k in
      let again = λ (k1 : Kernel). softirq_execute fuel k1 in
      handled >>= λ k1.
      let k2 = settle k.softirq_pending k1 in if k2.softirq_pending then again k2 else some k2
