-- ===== src/Calls/Deferred.antt =====
-- The way of a system call from `__isr_svcall` of kern/syscall.c to the kernel's thread.
use mathlib.Core.Path.{subst}
use bradyp_os.Heap.{fail}
use bradyp_os.Base.{
  ℕ, ◌+◌, ◌%◌, ◌^◌, ◌<◌, ◌≡◌, ◌≢◌, refl, inl, inr, ◌∙◌, true, false, Option, none, some, ◌==◌,
  arith, test_of_ne, ◌>>=◌, if_inv, no_result, some_inj, bind_inv,
}
use bradyp_os.Alarm.{Alarm, update_kalarm_event}
use bradyp_os.Kernel.{
  ThreadState, Kernel, thread_max_count, thread_idx_invalid, reschedule_event, is_runnable,
}
use bradyp_os.Scheduler.{
  set_thread_state, thread_schedule_insert, thread_schedule_delete, request_reschedule,
  get_current_thread, schedule_next_thread, requeue_current, pick, find_thread_idx_to_schedule,
  find_thread_idx_to_schedule_from_target, thread_schedule_pop, find_idx_in_heap,
}
use bradyp_os.Scheduler.State.{IsScheduled}
use bradyp_os.Scheduler.Update.{set_thread_state-IsScheduled}
use bradyp_os.Scheduler.Kept.{set_thread_state-Kept, set_thread_state-state}
use bradyp_os.Scheduler.Next.{schedule_next_thread-IsSwitched}
use bradyp_os.Calls.Dispatch.{
  isr_svcall, defer_call, softirq_schedule, sys_thread_switch, sys_system_clock,
}

-- What a switch of threads keeps.
record Remembers (k k' : Kernel) : Type 0 where
  caller : k'.caller ≡ k.caller
  pending : k'.softirq_pending ≡ k.softirq_pending

requeue_current-Remembers : (k : Kernel) → Remembers k (requeue_current k)
unfolding requeue_current thread_schedule_insert
requeue_current-Remembers k = record { caller = ground arith; pending = ground arith }

find-Remembers :
    (k : Kernel) {r : ℕ × Kernel} → find_thread_idx_to_schedule k ≡ some r → Remembers k r.1
unfolding find_thread_idx_to_schedule thread_schedule_pop
find-Remembers k {r} h = elim (if_inv (k.schedule.size == 0) h) [
  | inl a ↦ no_result a
  | inr a ↦ subst (λ x. Remembers k x.1) (some_inj a) (record { caller = refl; pending = refl })
]

pick-Remembers :
    (k : Kernel) (target : Option ℕ) {r : ℕ × Kernel} → pick k target ≡ some r → Remembers k r.1
unfolding pick find_thread_idx_to_schedule_from_target thread_schedule_delete
pick-Remembers k none h = find-Remembers k h
pick-Remembers k (some t) {r} h = elim (if_inv (find_idx_in_heap k t == fail) h) [
  | inl a ↦ find-Remembers k a
  | inr b ↦ elim (if_inv (is_runnable (k.tcb_store t).state) b) [
    | inl a ↦ subst (λ x. Remembers k x.1) (some_inj a) (record { caller = refl; pending = refl })
    | inr a ↦ no_result a
  ]
]

schedule_next_thread-Remembers :
    (k : Kernel) {k' : Kernel} → schedule_next_thread k ≡ some k' → Remembers k k'
unfolding schedule_next_thread
schedule_next_thread-Remembers k {k'} h =
    let k0 = requeue_current k in
    let (r, e, h1) = bind_inv (pick k0 k0.schedule_target) _ h in
    let (alarm, _, h2) = bind_inv (update_kalarm_event (r.1).alarm reschedule_event _) _ h1 in
    let p = pick-Remembers k0 k0.schedule_target e in
    let q = requeue_current-Remembers k in
    subst (Remembers k) (some_inj h2)
      (record { caller = p.caller ∙ q.caller; pending = p.pending ∙ q.pending })

-- After the switch of threads that follows a call, the kernel's thread runs to serve it; the caller
-- is remembered, and blocked.
pub record IsDeferred (k k' : Kernel) : Type 0 where
  pub scheduled : IsScheduled k'
  pub kernel_runs : k'.current_thread_idx ≡ k.kern_tcb
  pub caller : k'.caller ≡ k.current_thread_idx
  pub blocked : (k'.tcb_store k.current_thread_idx).state ≡ ThreadState.svc_blocked
  pub pending : k'.softirq_pending ≡ true

module _ (k : Kernel) (v : IsScheduled k) (listed : k.current_thread_idx < thread_max_count)
    (kern : k.kern_tcb < thread_max_count) (user : k.current_thread_idx ≢ k.kern_tcb) where
  marked : Kernel
  marked = record k { caller = k.current_thread_idx }

  called : Kernel
  unfolding set_thread_state marked
  called = set_thread_state marked k.current_thread_idx ThreadState.svc_blocked

  pending : Kernel
  unfolding called
  pending = record called { softirq_pending = true }

  pending-IsScheduled : IsScheduled pending
  unfolding pending called marked
  pending-IsScheduled =
      let w =
        set_thread_state-IsScheduled marked k.current_thread_idx ThreadState.svc_blocked
          (record { exact = v.exact; inside = v.inside }) listed refl in
      record { exact = w.exact; inside = w.inside }

  pending_blocked : (pending.tcb_store k.current_thread_idx).state ≡ ThreadState.svc_blocked
  unfolding pending called
  pending_blocked = ground (
    arith,
    set_thread_state-state marked k.current_thread_idx ThreadState.svc_blocked k.current_thread_idx,
  )

  kept :
      (pending.kern_tcb ≡ k.kern_tcb)
      × (pending.current_thread_idx ≡ k.current_thread_idx)
      × (pending.alarm ≡ k.alarm)
      × (pending.caller ≡ k.current_thread_idx)
  unfolding pending called marked
  kept =
      let s = set_thread_state-Kept marked k.current_thread_idx ThreadState.svc_blocked in
      (s.kern_tcb, s.current, s.alarm, s.caller)

  raised : Kernel
  unfolding pending set_thread_state
  raised = set_thread_state pending pending.kern_tcb ThreadState.runnable

  raised-IsScheduled : IsScheduled raised
  unfolding raised
  raised-IsScheduled =
      set_thread_state-IsScheduled pending pending.kern_tcb ThreadState.runnable pending-IsScheduled
        (rw kept.0 kern) (rw (kept.0, kept.1) (ground arith))

  record Raised (k' : Kernel) : Type 0 where
    scheduled : IsScheduled k'
    kern_tcb : k'.kern_tcb ≡ k.kern_tcb
    current : k'.current_thread_idx ≡ k.current_thread_idx
    alarm : k'.alarm ≡ k.alarm
    caller : k'.caller ≡ k.current_thread_idx
    pending : k'.softirq_pending ≡ true
    kernel : (k'.tcb_store k.kern_tcb).state ≡ ThreadState.runnable
    blocked : (k'.tcb_store k.current_thread_idx).state ≡ ThreadState.svc_blocked

  raised-Raised : Raised raised
  unfolding raised
  raised-Raised =
      let s = set_thread_state-Kept pending pending.kern_tcb ThreadState.runnable in
      let state = set_thread_state-state pending pending.kern_tcb ThreadState.runnable in
      record {
        scheduled = raised-IsScheduled;
        kern_tcb = s.kern_tcb ∙ kept.0;
        current = s.current ∙ kept.1;
        alarm = s.alarm ∙ kept.2;
        caller = s.caller ∙ kept.3;
        pending = s.pending;
        kernel = ground (arith, state k.kern_tcb, kept.0);
        blocked = ground (arith, state k.current_thread_idx, kept.0, pending_blocked);
      }

  deferred : defer_call k k.current_thread_idx ≡ request_reschedule raised (some raised.kern_tcb)
  unfolding defer_call softirq_schedule raised called pending marked
  deferred = refl

  isr_svcall_deferred :
      (number psp : ℕ)
      → number ≢ sys_thread_switch
      → number ≢ sys_system_clock
      → isr_svcall k number psp ≡ some (request_reschedule raised (some raised.kern_tcb))
  unfolding isr_svcall get_current_thread
  isr_svcall_deferred number psp a b =
      let runs : (k.current_thread_idx == thread_idx_invalid) ≡ false = ground arith in
      rw
        (
          runs,
          ◌>>=◌,
          test_of_ne number sys_thread_switch a,
          test_of_ne number sys_system_clock b,
          deferred,
        )
        refl

  -- A running thread, one of the 16 and not the kernel's, that makes a call other than those for
  -- switching threads and for the clock, in a state of the scheduler's invariant where the kernel's
  -- thread is one of the 16 and the scheduler's event can be moved to 10 ticks from now on the clock of
  -- 32 bits: both the call's interrupt and the
  -- switch of threads that follows return, and then the kernel's thread runs to serve the call, while
  -- the caller is remembered and blocked, and the invariant holds.
  pub isr_svcall-IsDeferred :
      (number psp : ℕ) (alarm : Alarm)
      → number ≢ sys_thread_switch
      → number ≢ sys_system_clock
      → update_kalarm_event k.alarm reschedule_event ((k.alarm.current_time + 10) % 2 ^ 32)
        ≡ some alarm
      → (k1 : Kernel) × (k2 : Kernel) × (isr_svcall k number psp ≡ some k1)
        × (schedule_next_thread k1 ≡ some k2)
        × IsDeferred k k2
  unfolding request_reschedule
  isr_svcall-IsDeferred number psp alarm no_switch no_clock event =
      let r = raised-Raised in
      let k1 : Kernel = request_reschedule raised (some raised.kern_tcb) in
      let (k2, switched, s) =
        schedule_next_thread-IsSwitched k1 k.kern_tcb alarm
          (record { exact = r.scheduled.exact; inside = r.scheduled.inside })
          (inr (rw r.current listed)) (rw r.kern_tcb kern) kern (rw r.kernel refl)
          (rw r.alarm event) in
      let m = schedule_next_thread-Remembers k1 switched in
      (
        k1,
        k2,
        isr_svcall_deferred number psp no_switch no_clock,
        switched,
        record {
          scheduled = s.scheduled;
          kernel_runs = s.honours (rw (r.kern_tcb, r.kernel) refl) ∙ r.kern_tcb;
          caller = m.caller ∙ r.caller;
          blocked = rw s.blocks r.blocked;
          pending = m.pending ∙ r.pending;
        },
      )
