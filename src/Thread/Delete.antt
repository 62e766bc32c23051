-- ===== src/Thread/Delete.antt =====
-- `thread_list_delete` of kern/thread.c: the loop adds one to the entries from the deleted one on,
-- and does not move them.
use bradyp_os.Base.{ℕ, zero, suc, ◌+◌, ◌-◌, ◌%◌, ◌≤◌, ◌<◌, ◌≡◌, refl, some, arith}
use bradyp_os.Base.Array.{Array, store}
use bradyp_os.Ids.{thread_no}
use bradyp_os.Kernel.{Kernel}
use bradyp_os.Thread.{number_at, thread_list_delete, bump}
use bradyp_os.Thread.Find.{IsSorted, thread_list_find-at}

bump_below : (n i j : ℕ) (a : Array) → j < i → bump n i a j ≡ a j
unfolding bump store
bump_below zero i j a h = refl
bump_below (suc n) i j a h = ground (arith, bump_below n (i + 1) j (store a i ((a i + 1) % 256)))

bump_at : (n i j : ℕ) (a : Array) → i ≤ j → j < i + n → bump n i a j ≡ (a j + 1) % 256
unfolding bump store
bump_at zero i j a h f = absurd (omega arith)
bump_at (suc n) i j a h f = ground (
  arith,
  bump_below n (i + 1) j (store a i ((a i + 1) % 256)),
  bump_at n (i + 1) j (store a i ((a i + 1) % 256)),
)

-- Deleting the thread at place `i` of a sorted list: the count falls by one, the entries before `i`
-- stay, and each entry from `i` on that is still counted is the number after the old entry, instead
-- of the entry behind it.
pub thread_list_delete_entries :
    (k : Kernel) (gid i : ℕ)
    → IsSorted k
    → number_at k i ≡ thread_no gid
    → i < k.thread_count
    → (k' : Kernel) × (thread_list_delete k gid ≡ some k')
      × (k'.thread_count ≡ k.thread_count - 1)
      × ((j : ℕ) → j < i → k'.thread_list j ≡ k.thread_list j)
      × ((j : ℕ) → i ≤ j → j < k.thread_count - 1 → k'.thread_list j ≡ (k.thread_list j + 1) % 256)
thread_list_delete_entries k gid i s e c = (
  record k {
    thread_count = k.thread_count - 1;
    thread_list = bump (k.thread_count - 1 - i) i k.thread_list;
  },
  deleted,
  refl,
  λ j p. bump_below (k.thread_count - 1 - i) i j k.thread_list p,
  λ j p q. bump_at (k.thread_count - 1 - i) i j k.thread_list p (omega arith),
)
  where
    deleted :
        thread_list_delete k gid
        ≡ some (record k {
          thread_count = k.thread_count - 1;
          thread_list = bump (k.thread_count - 1 - i) i k.thread_list;
        })
    deleted = unfold thread_list_delete in rw (thread_list_find-at k gid i s e c) (ground arith)
