-- ===== src/Scheduler/Kill.antt =====
-- `delete_thread` of kern/thread.c on the running thread, as the fault handler of kern/memory.c and
-- the thread control system call use it: the block stays runnable, and the next switch queues it.
use bradyp_os.Base.{
  ℕ, ◌<◌, ◌≡◌, refl, ◌∙◌, true, false, not, ◌&&◌, Option, none, some, ◌==◌, if◌then◌else◌, arith,
  ◌>>=◌,
}
use bradyp_os.Kernel.{is_runnable, Kernel, put_tcb, thread_max_count, thread_idx_invalid}
use bradyp_os.Thread.{thread_list_delete, free_tcb}
use bradyp_os.Scheduler.{
  compare_thread_by_prio, thread_schedule_insert, unschedule, requeue_current, delete_thread,
  unlink_siblings, set_prev_sibling?, set_next_sibling?,
}
use bradyp_os.Scheduler.Frame.{SameRun, SameRun-trans}
use bradyp_os.Scheduler.State.{queued, IsScheduled, schedule_size, schedule_room, unschedule-absent}
use bradyp_os.Heap.Contents.{count-insert}

set_prev_sibling?-SameRun : (k : Kernel) (p q : Option ℕ) → SameRun k (set_prev_sibling? k p q)
unfolding set_prev_sibling? put_tcb
set_prev_sibling?-SameRun k none q = record { heap = refl; current = refl; states = λ x. refl }
set_prev_sibling?-SameRun k (some p) q = record {
  heap = refl;
  current = refl;
  states = λ x. ground arith;
}

set_next_sibling?-SameRun : (k : Kernel) (p q : Option ℕ) → SameRun k (set_next_sibling? k p q)
unfolding set_next_sibling? put_tcb
set_next_sibling?-SameRun k none q = record { heap = refl; current = refl; states = λ x. refl }
set_next_sibling?-SameRun k (some p) q = record {
  heap = refl;
  current = refl;
  states = λ x. ground arith;
}

unlink_siblings-SameRun : (k : Kernel) (t : ℕ) → SameRun k (unlink_siblings k t)
unfolding unlink_siblings
unlink_siblings-SameRun k t =
    SameRun-trans (set_prev_sibling?-SameRun k _ _) (set_next_sibling?-SameRun _ _ _)

free_tcb-SameRun : (k : Kernel) (t : ℕ) → SameRun k (free_tcb k t)
unfolding free_tcb
free_tcb-SameRun k t = record { heap = refl; current = refl; states = λ x. refl }

free_tcb-freed : (k : Kernel) (t : ℕ) → (free_tcb k t).tcb_store_allocated t ≡ false
unfolding free_tcb
free_tcb-freed k t = ground arith

thread_list_delete-SameRun :
    (k : Kernel) (gid : ℕ) {k' : Kernel} → thread_list_delete k gid ≡ some k' → SameRun k k'
unfolding thread_list_delete
thread_list_delete-SameRun k gid h = record {
  heap = ground arith;
  current = ground arith;
  states = λ x. ground arith;
}

listed_inv :
    (o : Option Kernel) (f : Kernel → Kernel) {k' : Kernel}
    → (o >>= λ k2. some (f k2)) ≡ some k'
    → (k2 : Kernel) × (o ≡ some k2) × (f k2 ≡ k')
listed_inv none f h = absurd (cc)
listed_inv (some k2) f h = (k2, refl, cc)

-- Deleting the running thread, which is runnable, frees its block and leaves the block runnable.
delete_current-SameRun :
    (k : Kernel) {k' : Kernel}
    → IsScheduled k
    → k.current_thread_idx < thread_max_count
    → delete_thread k k.current_thread_idx ≡ some k'
    → SameRun k k' × (k'.tcb_store_allocated k.current_thread_idx ≡ false)
unfolding delete_thread
delete_current-SameRun k {k'} v listed h =
    let t = k.current_thread_idx in
    let absent : queued k t ≡ 0 = ground (arith, v.exact t) in
    let same : (if is_runnable (k.tcb_store t).state then unschedule k t else k) ≡ k =
      rw (unschedule-absent k t (schedule_size k v) absent) (ground arith) in
    let (k2, o, e) =
      listed_inv _ (λ k2. free_tcb (unlink_siblings k2 t) t) {k' = k'} (rw same at h) in
    rw (← e) (
      SameRun-trans (thread_list_delete-SameRun k (k.tcb_store t).global_id {k' = k2} o) (
          SameRun-trans (unlink_siblings-SameRun k2 t) (free_tcb-SameRun (unlink_siblings k2 t) t)),
      free_tcb-freed (unlink_siblings k2 t) t,
    )

-- In a state of the scheduler's invariant, a `delete_thread` of the running thread, one of the 16
-- and runnable, that returns frees its block, and the next switch of threads puts it into the
-- heap.
pub killed_thread_queued :
    (k : Kernel) {k' : Kernel}
    → IsScheduled k
    → k.current_thread_idx < thread_max_count
    → is_runnable (k.tcb_store k.current_thread_idx).state ≡ true
    → delete_thread k k.current_thread_idx ≡ some k'
    → (k'.tcb_store_allocated k.current_thread_idx ≡ false)
      × (queued (requeue_current k') k.current_thread_idx ≡ 1)
unfolding requeue_current thread_schedule_insert compare_thread_by_prio
killed_thread_queued k {k'} v listed r h =
    let (s, freed) = delete_current-SameRun k {k' = k'} v listed h in
    let absent : queued k k.current_thread_idx ≡ 0 = ground (arith, v.exact k.current_thread_idx) in
    let back : (not (k'.current_thread_idx == thread_idx_invalid)
          && is_runnable (k'.tcb_store k'.current_thread_idx).state)
        ≡ true =
      rw (s.current, s.states) (ground arith) in
    (
      freed,
      rw (back, s.current, s.heap)
          (count-insert (compare_thread_by_prio k') k.current_thread_idx k.schedule thread_max_count
              k.current_thread_idx (schedule_room k v k.current_thread_idx listed absent)
            ∙ ground (arith, absent)),
    )
