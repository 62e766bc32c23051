-- ===== src/Scheduler/State.antt =====
-- The scheduler's invariant, and what the search of kern/thread.c for a heap entry and the removal of
-- one do in its states.
use mathlib.Core.Path.{subst}
use bradyp_os.Base.{
  ℕ, zero, suc, ◌+◌, ◌≤◌, ◌<◌, ◌≡◌, ◌≢◌, inl, inr, refl, Bool, true, false, not, ◌&&◌, ◌==◌, bit,
  arith, Bool-cases, eq_of_test, ne_of_test,
}
use bradyp_os.Base.Array.{Array, count}
use bradyp_os.Heap
use bradyp_os.Heap.{Heap, fail}
use bradyp_os.Heap.Contents.{count-delete}
use bradyp_os.Kernel.{is_runnable, Kernel, thread_max_count}
use bradyp_os.Scheduler.{
  compare_thread_by_prio, thread_schedule_delete, find_from, find_idx_in_heap, unschedule,
}
use bradyp_os.Scheduler.Room.{count_pos, count_zero, size-le, size-lt}

-- How often the thread `x` stands in the scheduler's heap.
abbrev pub queued : Kernel → ℕ → ℕ
queued k x = count x k.schedule.items k.schedule.size

-- The thread `x` waits for the processor.
abbrev pub is_waiting : Kernel → ℕ → Bool
is_waiting k x = is_runnable (k.tcb_store x).state && not (x == k.current_thread_idx)

-- The heap holds each runnable thread that does not run once, and nothing else.
pub record IsScheduled (k : Kernel) : Type 0 where
  pub exact : (x : ℕ) → x < thread_max_count → queued k x ≡ bit (is_waiting k x)
  pub inside : (x : ℕ) → thread_max_count ≤ x → queued k x ≡ 0

pub bit_le : (b : Bool) → bit b ≤ 1
bit_le true = omega arith
bit_le false = omega arith

module _ (k : Kernel) (v : IsScheduled k) where
  once : (x : ℕ) → x < thread_max_count → queued k x ≤ 1
  once x p = omega (arith, v.exact x p, bit_le (is_waiting k x))

  -- The heap never holds more than the 16 threads.
  pub schedule_size : k.schedule.size ≤ thread_max_count
  schedule_size = size-le thread_max_count k.schedule.items k.schedule.size v.inside once

  -- There is room for a thread that is not in the heap.
  pub schedule_room :
      (t : ℕ) → t < thread_max_count → queued k t ≡ 0 → k.schedule.size < thread_max_count
  schedule_room = size-lt thread_max_count k.schedule.items k.schedule.size v.inside once

pub find_from-hit :
    (n i : ℕ) (a : Array) (x : ℕ)
    → find_from n i a x ≢ fail
    → (find_from n i a x < i + n) × (a (find_from n i a x) ≡ x)
unfolding find_from
find_from-hit zero i a x h = absurd (h refl)
find_from-hit (suc n) i a x h = ground (arith, find_from-hit n (i + 1) a x)

pub find_from-miss :
    (n i : ℕ) (a : Array) (x : ℕ)
    → find_from n i a x ≡ fail
    → i + n ≤ fail
    → (j : ℕ) → i ≤ j
    → j < i + n
    → a j ≢ x
unfolding find_from
find_from-miss zero i a x h w j p q = absurd (omega arith)
find_from-miss (suc n) i a x h w j p q = elim (Bool-cases (a i == x)) [
  | inl hit ↦ absurd (ground arith)
  | inr miss ↦ λ e. ground (arith, find_from-miss n (i + 1) a x (rw miss at h) (omega arith) j)
]

module _ (k : Kernel) (t : ℕ) (small : k.schedule.size ≤ thread_max_count) where
  -- Taking out a thread that is not in the heap changes nothing.
  pub unschedule-absent : queued k t ≡ 0 → unschedule k t ≡ k
  unfolding unschedule find_idx_in_heap
  unschedule-absent e = elim (Bool-cases (find_idx_in_heap k t == fail)) [
    | inl miss ↦ rw miss
    | inr hit ↦
        let f = find_from-hit k.schedule.size 0 k.schedule.items t (ne_of_test _ _ hit) in
        absurd (
          omega (
            arith,
            e,
            rw f.1 at (
                count_pos k.schedule.items k.schedule.size (find_idx_in_heap k t)
                  (omega (arith, f.0))),
          ))
  ]

  -- A thread in the heap is taken out once.
  pub queued-unschedule :
      (x : ℕ) → 0 < queued k t → queued (unschedule k t) x + bit (t == x) ≡ queued k x
  unfolding unschedule find_idx_in_heap thread_schedule_delete
  queued-unschedule x p = elim (Bool-cases (find_idx_in_heap k t == fail)) [
    | inl miss ↦ absurd (
        omega (
          arith,
          p,
          count_zero t k.schedule.items k.schedule.size (λ j q.
              find_from-miss k.schedule.size 0 k.schedule.items t (eq_of_test _ _ miss)
                (omega arith) j (omega arith) (omega arith)),
        ))
    | inr hit ↦
        let f = find_from-hit k.schedule.size 0 k.schedule.items t (ne_of_test _ _ hit) in
        rw hit (
          subst
            (λ y.
              count x
                  (Heap.delete (compare_thread_by_prio k) k.schedule (find_idx_in_heap k t)).items
                  (Heap.delete (compare_thread_by_prio k) k.schedule (find_idx_in_heap k t)).size
                + bit (y == x)
              ≡ queued k x)
            f.1
            (count-delete (compare_thread_by_prio k) x k.schedule (find_idx_in_heap k t)
              (omega (arith, f.0)) (omega arith)))
  ]
