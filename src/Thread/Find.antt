-- ===== src/Thread/Find.antt =====
-- The binary search `thread_list_find` of kern/thread.c, and the lookups that use it.
use bradyp_os.Base.{ℕ, zero, suc, ◌+◌, ◌-◌, ◌/◌, ◌≤◌, ◌<◌, ◌≡◌, refl, ◌∙◌, ap, some, arith}
use bradyp_os.Ids.{thread_no, same_threads}
use bradyp_os.Kernel.{Kernel, thread_idx_invalid}
use bradyp_os.Thread.{
  number_at, find_loop, thread_list_find, thread_map_find, find_thread_by_global_id,
}

-- The thread numbers of the list grow strictly.
abbrev pub IsSorted : Kernel → Type 0
IsSorted k = (i j : ℕ) → i < j → j < k.thread_count → number_at k i < number_at k j

module _ (k : Kernel) (number : ℕ) where
  find_loop-le :
      (fuel low high : ℕ)
      → low ≤ high
      → high ≤ k.thread_count
      → find_loop fuel k number low high ≤ k.thread_count
  unfolding find_loop
  find_loop-le zero low high p q = omega arith
  find_loop-le (suc fuel) low high p q = ground (
    arith,
    find_loop-le fuel ((low + high) / 2 + 1) high,
    find_loop-le fuel low ((low + high) / 2 - 1),
  )

  find_loop-at :
      (fuel low high i : ℕ)
      → IsSorted k
      → number_at k i ≡ number
      → i < k.thread_count
      → low ≤ i
      → i ≤ high
      → low < high
      → high ≤ k.thread_count
      → high < low + fuel
      → find_loop fuel k number low high ≡ i
  unfolding find_loop
  find_loop-at zero low high i s e c l h b d f = absurd (omega arith)
  find_loop-at (suc fuel) low high i s e c l h b d f = ground (
    arith,
    s i ((low + high) / 2),
    s ((low + high) / 2) i,
    find_loop-at fuel ((low + high) / 2 + 1) high i s e c,
    find_loop-at fuel low ((low + high) / 2 - 1) i s e c,
  )

module _ (k : Kernel) (gid : ℕ) where
  -- The search never leaves the entries and the one behind them.
  pub thread_list_find-le-count : thread_list_find k gid ≤ k.thread_count
  unfolding thread_list_find
  thread_list_find-le-count =
      find_loop-le k (thread_no gid) (suc k.thread_count) 0 k.thread_count (omega arith)
        (omega arith)

  -- In a sorted list, a thread is found at its place.
  pub thread_list_find-at :
      (i : ℕ)
      → IsSorted k
      → number_at k i ≡ thread_no gid
      → i < k.thread_count
      → thread_list_find k gid ≡ i
  unfolding thread_list_find
  thread_list_find-at i s e c =
      find_loop-at k (thread_no gid) (suc k.thread_count) 0 k.thread_count i s e c (omega arith)
        (omega arith) (omega arith) (omega arith) (omega arith)

  -- In a sorted list, `find_thread_by_global_id` returns the block of every listed thread
  -- number, where the list names a block.
  pub find_thread-listed :
      (i : ℕ)
      → IsSorted k
      → number_at k i ≡ thread_no gid
      → i < k.thread_count
      → k.thread_list i < thread_idx_invalid
      → find_thread_by_global_id k gid ≡ some (k.thread_list i)
  unfolding find_thread_by_global_id thread_map_find same_threads
  find_thread-listed i s e c valid = ground (arith, thread_list_find-at i s e c)

  -- What a search returns has the thread number that was asked for, and stands in the list or right
  -- behind it.
  pub find_thread_sound :
      {t : ℕ}
      → find_thread_by_global_id k gid ≡ some t
      → (thread_no (k.tcb_store t).global_id ≡ thread_no gid)
        × ((i : ℕ) × (i ≤ k.thread_count) × (k.thread_list i ≡ t))
  unfolding find_thread_by_global_id thread_map_find same_threads
  find_thread_sound h =
      (ground (arith), (thread_list_find k gid, thread_list_find-le-count, ground arith))

-- The list, its length and the identifiers of the threads are the same.
pub record SameNames (k k' : Kernel) : Type 0 where
  pub list : k'.thread_list ≡ k.thread_list
  pub length : k'.thread_count ≡ k.thread_count
  pub ids : (x : ℕ) → (k'.tcb_store x).global_id ≡ (k.tcb_store x).global_id

find_loop-same :
    (fuel : ℕ) (k k' : Kernel) (number low high : ℕ)
    → SameNames k k'
    → find_loop fuel k' number low high ≡ find_loop fuel k number low high
unfolding find_loop
find_loop-same zero k k' number low high s = refl
find_loop-same (suc fuel) k k' number low high s =
    let mid = (low + high) / 2 in
    rw
      (
        find_loop,
        find_loop-same fuel k k' number (mid + 1) high s,
        find_loop-same fuel k k' number low (mid - 1) s,
        s.list,
        s.ids,
        s.length,
      )
      refl

thread_list_find-same :
    (k k' : Kernel) (gid : ℕ) → SameNames k k' → thread_list_find k' gid ≡ thread_list_find k gid
unfolding thread_list_find
thread_list_find-same k k' gid s =
    find_loop-same (suc k'.thread_count) k k' (thread_no gid) 0 k'.thread_count s
    ∙ ap (λ c. find_loop (suc c) k (thread_no gid) 0 c) s.length

thread_map_find-same :
    (k k' : Kernel) (gid : ℕ) → SameNames k k' → thread_map_find k' gid ≡ thread_map_find k gid
unfolding thread_map_find
thread_map_find-same k k' gid s =
    let e = thread_list_find-same k k' gid s in
    let l : k'.thread_list (thread_list_find k' gid) ≡ k.thread_list (thread_list_find k gid) =
      rw (e, s.list) refl in
    rw (l, s.ids) refl

-- Threads are found as before.
pub find_thread-same :
    (k k' : Kernel) (gid : ℕ)
    → SameNames k k'
    → find_thread_by_global_id k' gid ≡ find_thread_by_global_id k gid
unfolding find_thread_by_global_id
find_thread-same k k' gid s = rw (thread_map_find-same k k' gid s) refl
