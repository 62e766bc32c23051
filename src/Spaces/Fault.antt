-- ===== src/Spaces/Fault.antt =====
-- A fault of a user thread, in the handler of kern/memory.c and the next switch of threads.
use bradyp_os.Base.{
  ℕ, ◌<◌, ◌≡◌, refl, inl, inr, true, false, not, ◌&&◌, Option, none, some, ltb, ◌==◌, arith,
  Bool-cases, ◌∙◌, test_of_ne, ◌>>=◌,
}
use bradyp_os.Ids.{thread_no, user_thread_start}
use bradyp_os.Kernel.{is_runnable, Kernel, thread_max_count, thread_idx_invalid}
use bradyp_os.Scheduler.{
  thread_schedule_insert, compare_thread_by_prio, requeue_current, delete_thread,
  request_reschedule, get_current_thread,
}
use bradyp_os.Scheduler.State.{queued, IsScheduled}
use bradyp_os.Scheduler.Kill.{killed_thread_queued}
use bradyp_os.Spaces.{isr_hardfault}

queued-request :
    (k : Kernel) (x : ℕ)
    → queued (requeue_current (request_reschedule k none)) x ≡ queued (requeue_current k) x
unfolding requeue_current request_reschedule thread_schedule_insert compare_thread_by_prio
queued-request k x =
    elim (Bool-cases (
      not (k.current_thread_idx == thread_idx_invalid)
      && is_runnable (k.tcb_store k.current_thread_idx).state)) [
        | inl back ↦ rw back refl
        | inr out ↦ rw out refl
      ]

deleted_inv :
    (o : Option Kernel) {k' : Kernel}
    → (o >>= λ k1. some (request_reschedule k1 none)) ≡ some k'
    → (k1 : Kernel) × (o ≡ some k1) × (request_reschedule k1 none ≡ k')
deleted_inv none h = absurd (cc)
deleted_inv (some k1) h = (k1, refl, cc)

-- A fault handler that returns has deleted the running thread and requested a switch of threads.
isr_hardfault_inv :
    (k : Kernel) {k' : Kernel}
    → k.current_thread_idx < thread_max_count
    → isr_hardfault k true ≡ some k'
    → (k1 : Kernel) × (delete_thread k k.current_thread_idx ≡ some k1)
      × (request_reschedule k1 none ≡ k')
unfolding isr_hardfault get_current_thread
isr_hardfault_inv k {k'} listed h =
    let number = thread_no (k.tcb_store k.current_thread_idx).global_id in
    let some_thread = test_of_ne k.current_thread_idx thread_idx_invalid (omega arith) in
    elim (Bool-cases (ltb number user_thread_start)) [
      | inl system ↦ absurd (let g = (rw (some_thread, system) at h) in cc)
      | inr user ↦ elim (Bool-cases (number == user_thread_start)) [
        | inl root ↦ absurd (let g = (rw (some_thread, user, root) at h) in cc)
        | inr other ↦
            deleted_inv (delete_thread k k.current_thread_idx) {k' = k'}
              (rw (some_thread, user, other) at h)
      ]
    ]

-- In a state of the scheduler's invariant, where the running thread is one of the 16 and runnable, a
-- fault handler that returns has freed the thread's block, and the next switch of threads puts the
-- freed block into the heap.
pub fault-queued :
    (k : Kernel) {k' : Kernel}
    → IsScheduled k
    → k.current_thread_idx < thread_max_count
    → is_runnable (k.tcb_store k.current_thread_idx).state ≡ true
    → isr_hardfault k true ≡ some k'
    → (k'.tcb_store_allocated k.current_thread_idx ≡ false)
      × (queued (requeue_current k') k.current_thread_idx ≡ 1)
fault-queued k {k'} v listed r h =
    let (k1, deleted, requested) = isr_hardfault_inv k {k' = k'} listed h in
    let (freed, back) = killed_thread_queued k {k' = k1} v listed r deleted in
    rw (← requested)
      (unfold request_reschedule in freed, queued-request k1 k.current_thread_idx ∙ back)
