-- ===== src/Scheduler/Priority.antt =====
-- `set_thread_priority` of kern/thread.c and the scheduler's invariant.
use bradyp_os.Base.{ℕ, ◌<◌, ◌≡◌, inl, inr, refl, ◌∙◌, ◌==◌, arith, Bool-cases, ne_of_test}
use bradyp_os.Heap
use bradyp_os.Heap.{fail}
use bradyp_os.Heap.Contents.{count-sink, count-swim}
use bradyp_os.Heap.Indices.{sink-lt}
use bradyp_os.Kernel.{Kernel, put_tcb}
use bradyp_os.Scheduler.{compare_thread_by_prio, find_idx_in_heap, set_thread_priority}
use bradyp_os.Scheduler.State.{queued, IsScheduled, find_from-hit}

module _ (k : Kernel) (t prio : ℕ) where
  prioritized : Kernel
  unfolding put_tcb
  prioritized = put_tcb k t (record (k.tcb_store t) { priority = prio })

  -- The entry moves in the heap, and none is lost or added.
  queued-set_thread_priority : (x : ℕ) → queued (set_thread_priority k t prio) x ≡ queued k x
  unfolding set_thread_priority find_idx_in_heap prioritized
  queued-set_thread_priority x = elim (Bool-cases (find_idx_in_heap prioritized t == fail)) [
    | inl miss ↦ rw miss refl
    | inr hit ↦
        let before = compare_thread_by_prio prioritized in
        let n = k.schedule.size in
        let i = find_idx_in_heap prioritized t in
        let hits = find_from-hit n 0 k.schedule.items t (ne_of_test _ _ hit) in
        let inside : i < n = omega (arith, hits.0) in
        let sunk = Heap.sink before n k.schedule.items i in
        rw hit (
          count-swim before x sunk.0 sunk.1 n (sink-lt before n k.schedule.items i inside)
          ∙ count-sink before x n k.schedule.items i inside)
  ]

  pub set_thread_priority-states :
      (x : ℕ) → ((set_thread_priority k t prio).tcb_store x).state ≡ (k.tcb_store x).state
  unfolding set_thread_priority put_tcb
  set_thread_priority-states x = ground arith

  pub set_thread_priority-current :
      (set_thread_priority k t prio).current_thread_idx ≡ k.current_thread_idx
  unfolding set_thread_priority put_tcb
  set_thread_priority-current = ground arith

  -- `set_thread_priority` gives the thread the priority, and keeps the scheduler's invariant.
  pub set_thread_priority-IsScheduled :
      IsScheduled k
      → (((set_thread_priority k t prio).tcb_store t).priority ≡ prio)
        × IsScheduled (set_thread_priority k t prio)
  unfolding set_thread_priority put_tcb
  set_thread_priority-IsScheduled v = (
    ground arith,
    record {
      exact = λ x p.
          rw (queued-set_thread_priority, set_thread_priority-states, set_thread_priority-current)
            (v.exact x p);
      inside = λ x p. rw queued-set_thread_priority (v.inside x p);
    },
  )
