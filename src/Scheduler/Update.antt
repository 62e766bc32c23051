-- ===== src/Scheduler/Update.antt =====
-- `set_thread_state` of kern/thread.c keeps the scheduler's invariant.
use bradyp_os.Base.{
  ℕ, ◌+◌, ◌<◌, ◌≡◌, inl, inr, refl, Bool, true, false, not, ◌&&◌, ◌==◌, if◌then◌else◌, bit, arith,
  Bool-cases,
}
use bradyp_os.Heap.Contents.{count-insert}
use bradyp_os.Kernel.{ThreadState, is_runnable, Kernel, put_tcb, thread_max_count}
use bradyp_os.Scheduler.{
  compare_thread_by_prio, thread_schedule_insert, thread_schedule_delete, unschedule,
  adjust_schedule, set_thread_state,
}
use bradyp_os.Scheduler.State.{
  queued, IsScheduled, schedule_size, schedule_room, unschedule-absent, queued-unschedule,
}

-- The heap's functions leave the blocks and the running thread alone.
pub record SameThreads (k k' : Kernel) : Type 0 where
  pub blocks : k'.tcb_store ≡ k.tcb_store
  pub current : k'.current_thread_idx ≡ k.current_thread_idx

pub unschedule-SameThreads : (k : Kernel) (t : ℕ) → SameThreads k (unschedule k t)
unfolding unschedule thread_schedule_delete
unschedule-SameThreads k t = ground arith

pub thread_schedule_insert-SameThreads :
    (k : Kernel) (t : ℕ) → SameThreads k (thread_schedule_insert k t)
unfolding thread_schedule_insert
thread_schedule_insert-SameThreads k t = record { blocks = refl; current = refl }

-- Whether `t` joins the heap and whether it leaves it.
abbrev pub joins : Kernel → ℕ → ThreadState → Bool
joins k t s = is_runnable s && not (is_runnable (k.tcb_store t).state)

abbrev pub leaves : Kernel → ℕ → ThreadState → Bool
leaves k t s = not (is_runnable s) && is_runnable (k.tcb_store t).state

adjust_schedule_lem :
    (k : Kernel) (t : ℕ) (s : ThreadState)
    → adjust_schedule k t s ≡ (
        if joins k t s
        then thread_schedule_insert k t
        else if leaves k t s
        then unschedule k t
        else k)
unfolding adjust_schedule
adjust_schedule_lem k t s = refl

pub adjust_schedule-SameThreads :
    (k : Kernel) (t : ℕ) (s : ThreadState) → SameThreads k (adjust_schedule k t s)
adjust_schedule-SameThreads k t s = elim (Bool-cases (joins k t s)) [
  | inl j ↦ rw (adjust_schedule_lem, j) (thread_schedule_insert-SameThreads k t)
  | inr j ↦ elim (Bool-cases (leaves k t s)) [
    | inl l ↦ rw (adjust_schedule_lem, j, l) (unschedule-SameThreads k t)
    | inr l ↦ rw (adjust_schedule_lem, j, l) (record { blocks = refl; current = refl })
  ]
]

module _ (k : Kernel) (v : IsScheduled k) (t : ℕ) (listed : t < thread_max_count) where
  pub queued-insert :
      (x : ℕ) → queued k t ≡ 0 → queued (thread_schedule_insert k t) x ≡ queued k x + bit (t == x)
  unfolding thread_schedule_insert
  queued-insert x e =
      count-insert (compare_thread_by_prio k) x k.schedule thread_max_count t
        (schedule_room k v t listed e)

  queued-leaves :
      (s : ThreadState) (x : ℕ)
      → leaves k t s ≡ true
      → queued (unschedule k t) x
        ≡ (if x == t then bit (is_runnable s && not (t == k.current_thread_idx)) else queued k x)
  queued-leaves s x l = elim (Bool-cases (t == k.current_thread_idx)) [
    | inl runs ↦
        let e : queued k t ≡ 0 = ground (arith, v.exact t) in
        rw (unschedule-absent k t (schedule_size k v) e) (ground arith)
    | inr waits ↦
        let e : queued k t ≡ 1 = ground (arith, v.exact t) in
        ground (arith, queued-unschedule k t (schedule_size k v) x (omega arith))
  ]

  -- How often a thread is queued after the change: once if it waits, else not at all.
  pub queued-adjust :
      (s : ThreadState) (x : ℕ)
      → (joins k t s && t == k.current_thread_idx) ≡ false
      → queued (adjust_schedule k t s) x
        ≡ (if x == t then bit (is_runnable s && not (t == k.current_thread_idx)) else queued k x)
  queued-adjust s x fine = elim (Bool-cases (joins k t s)) [
    | inl j ↦ rw (adjust_schedule_lem, j) (ground (arith, queued-insert x, v.exact t))
    | inr j ↦ elim (Bool-cases (leaves k t s)) [
      | inl l ↦ rw (adjust_schedule_lem, j, l) (queued-leaves s x l)
      | inr l ↦ rw (adjust_schedule_lem, j, l) (ground (arith, v.exact t))
    ]
  ]

-- `set_thread_state` on one of the 16 threads keeps the scheduler's invariant, unless it makes
-- the running thread runnable that was not.
pub set_thread_state-IsScheduled :
    (k : Kernel) (t : ℕ) (s : ThreadState)
    → IsScheduled k
    → t < thread_max_count
    → (joins k t s && t == k.current_thread_idx) ≡ false
    → IsScheduled (set_thread_state k t s)
unfolding set_thread_state put_tcb
set_thread_state-IsScheduled k t s v listed fine =
    let same = adjust_schedule-SameThreads k t s in
    record {
      exact = λ x p.
          rw (queued-adjust k v t listed s x fine, same.blocks, same.current)
            (ground (arith, v.exact x));
      inside = λ x p. rw (queued-adjust k v t listed s x fine) (ground (arith, v.inside x));
    }

-- In a state of the scheduler's invariant, making the running thread, one of the 16, runnable
-- that was not puts it into the heap while it runs, which breaks the invariant.
pub set_thread_state-current :
    (k : Kernel) (t : ℕ)
    → IsScheduled k
    → t < thread_max_count
    → t ≡ k.current_thread_idx
    → is_runnable (k.tcb_store t).state ≡ false
    → (queued (set_thread_state k t ThreadState.runnable) t ≡ 1)
      × ¬ IsScheduled (set_thread_state k t ThreadState.runnable)
unfolding set_thread_state put_tcb
set_thread_state-current k t v listed e blocked =
    (inside_heap, λ w. ground (arith, w.exact t, inside_heap))
  where
    inside_heap : queued (set_thread_state k t ThreadState.runnable) t ≡ 1
    inside_heap =
        let j : joins k t ThreadState.runnable ≡ true = ground arith in
        let absent : queued k t ≡ 0 = ground (arith, v.exact t) in
        rw (adjust_schedule_lem, j) (ground (arith, queued-insert k v t listed t absent))
