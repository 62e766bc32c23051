-- ===== src/Calls/Answers.antt =====
-- What becomes of the caller of a system call of kern/syscall.c and kern/syscall/*.c.
use mathlib.Core.Path.{subst}
use bradyp_os.Base.{◌<◌, ◌≡◌, ◌⊎◌, refl, inl, inr, true, false, some, ltb, arith, some_inj}
use bradyp_os.Base.Array.{store}
use bradyp_os.Ids.{is_nil_thread, thread_no, user_thread_start}
use bradyp_os.Kernel.{ThreadState, Kernel}
use bradyp_os.Memory.Utcb
use bradyp_os.Memory.{save, load_stack, save_stack, load_utcb, save_utcb, stack_r0, ctx_r7}
use bradyp_os.Calls.{reject, unblock_caller, error_no_privilege}
use bradyp_os.Calls.Threads.{arguments, syscall_thread_control}
use bradyp_os.Calls.Spaces.{syscall_space_control, syscall_unmap}
use bradyp_os.Calls.Schedule.{syscall_schedule}
use bradyp_os.Scheduler.Kept.{set_thread_state-state}
use bradyp_os.Scheduler.Frame.{IsServing}
use bradyp_os.Calls.Placement.{control_space-caller}
use bradyp_os.Calls.Serving.{schedule_thread-Serves, map-some}
use bradyp_os.Calls.Dispatch.{
  Interface, kernel_interface, softirq_svc, sys_kernel_interface, sys_space_control,
  sys_thread_control, sys_unmap, sys_schedule,
}

-- A call for thread control, in a thread that names a thread number below 0x40 as the destination, is
-- refused with the error for missing privileges, and changes no control block: a caller that was
-- blocked for the call stays blocked.
pub softirq_svc-stays_blocked :
    (kip : Interface) (k : Kernel)
    → (k.tcb_store k.caller).ctx.r ctx_r7 ≡ sys_thread_control
    → is_nil_thread (load_stack k k.caller stack_r0) ≡ false
    → thread_no (load_stack k k.caller stack_r0) < user_thread_start
    → (k' : Kernel) × (softirq_svc kip k ≡ some k')
      × (k'.tcb_store ≡ k.tcb_store)
      × (load_utcb k' k.caller Utcb.error ≡ error_no_privilege)
unfolding softirq_svc syscall_thread_control arguments reject save_utcb save_stack load_utcb store
softirq_svc-stays_blocked kip k call named low =
    let privileged : ltb (thread_no (load_stack k k.caller stack_r0)) user_thread_start ≡ true =
      ground arith in
    (reject k error_no_privilege, rw (call, named, privileged) refl, refl, ground arith)

unblocked :
    (k k1 : Kernel) {k' : Kernel}
    → k1.caller ≡ k.caller
    → unblock_caller k1 ≡ k'
    → (k'.tcb_store k.caller).state ≡ ThreadState.runnable
unfolding unblock_caller
unblocked k k1 same e =
    subst (λ x. (x.tcb_store k.caller).state ≡ ThreadState.runnable) e
      (rw (← same)
        (ground (arith, set_thread_state-state k1 k1.caller ThreadState.runnable k1.caller)))

kernel_interface-answers :
    (kip : Interface) (k : Kernel)
    → ((kernel_interface kip k).tcb_store k.caller).state ≡ ThreadState.runnable
unfolding kernel_interface unblock_caller save_stack save
kernel_interface-answers kip k = rw set_thread_state-state (ground arith)

-- A call for the kernel interface, for space control, for unmapping or for scheduling, in a state of
-- the scheduler's invariant, that returns leaves its caller runnable, errors included.
pub softirq_svc-answers :
    (kip : Interface) (k : Kernel) {k' : Kernel}
    → IsServing k
    → ((k.tcb_store k.caller).ctx.r ctx_r7 ≡ sys_kernel_interface)
      ⊎ ((k.tcb_store k.caller).ctx.r ctx_r7 ≡ sys_space_control)
      ⊎ ((k.tcb_store k.caller).ctx.r ctx_r7 ≡ sys_unmap)
      ⊎ ((k.tcb_store k.caller).ctx.r ctx_r7 ≡ sys_schedule)
    → softirq_svc kip k ≡ some k'
    → (k'.tcb_store k.caller).state ≡ ThreadState.runnable
unfolding softirq_svc kernel_interface syscall_unmap syscall_schedule syscall_space_control
    save_stack
softirq_svc-answers kip k {k'} v (inl call) h =
    subst (λ x. (x.tcb_store k.caller).state ≡ ThreadState.runnable) (some_inj (rw call at h))
      (kernel_interface-answers kip k)
softirq_svc-answers kip k {k'} v (inr (inl call)) h =
    let (k1, e, r) =
      map-some unblock_caller (syscall_space_control kip.kip_fpage k) (rw call at h) in
    unblocked k k1 (control_space-caller kip.kip_fpage k _ _ _ e) r
softirq_svc-answers kip k {k'} v (inr (inr (inl call))) h =
    unblocked k k refl (some_inj (rw call at h))
softirq_svc-answers kip k {k'} v (inr (inr (inr call))) h =
    let (k1, e, r) = map-some unblock_caller (syscall_schedule k) (rw call at h) in
    unblocked k k1 (schedule_thread-Serves k v _ _ _ _ e).caller r
