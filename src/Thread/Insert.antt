-- ===== src/Thread/Insert.antt =====
-- `thread_list_insert` of kern/thread.c keeps the list sorted where the new thread number is above
-- the others, and breaks the order where it falls between two.
use bradyp_os.Base.{ℕ, zero, suc, ◌+◌, ◌-◌, ◌/◌, ◌%◌, ◌<◌, ◌≡◌, refl, some, arith}
use bradyp_os.Base.Array.{store}
use bradyp_os.Ids.{thread_no}
use bradyp_os.Kernel.{Kernel}
use bradyp_os.Thread.{number_at, find_loop, thread_list_find, thread_list_insert, shift_in}
use bradyp_os.Thread.Find.{IsSorted}

module _ (k : Kernel) (number : ℕ) where
  find_loop-end :
      (fuel low high : ℕ)
      → ((i : ℕ) → i < k.thread_count → number_at k i < number)
      → low < high
      → high ≡ k.thread_count
      → high < low + fuel
      → find_loop fuel k number low high ≡ k.thread_count
  unfolding find_loop
  find_loop-end zero low high above b d f = absurd (omega arith)
  find_loop-end (suc fuel) low high above b d f =
      ground (arith, above ((low + high) / 2), find_loop-end fuel ((low + high) / 2 + 1) high above)

-- A number above all the listed ones belongs behind the list.
pub thread_list_find-end :
    (k : Kernel) (gid : ℕ)
    → ((i : ℕ) → i < k.thread_count → number_at k i < thread_no gid)
    → 0 < k.thread_count
    → thread_list_find k gid ≡ k.thread_count
unfolding thread_list_find
thread_list_find-end k gid above pos =
    find_loop-end k (thread_no gid) (suc k.thread_count) 0 k.thread_count above pos refl
      (omega arith)

-- Inserting one of the 16 blocks, whose thread number is above all the listed ones, into a sorted
-- list that is not empty returns, puts the block at the end, and keeps the list sorted.
pub thread_list_insert-IsSorted :
    (k : Kernel) (tcb gid : ℕ)
    → IsSorted k
    → ((i : ℕ) → i < k.thread_count → number_at k i < thread_no gid)
    → 0 < k.thread_count
    → tcb < 16
    → (k.tcb_store tcb).global_id ≡ gid
    → (k' : Kernel) × (thread_list_insert k tcb gid ≡ some k')
      × (k'.thread_count ≡ k.thread_count + 1)
      × (k'.thread_list k.thread_count ≡ tcb)
      × IsSorted k'
unfolding thread_list_insert shift_in store
thread_list_insert-IsSorted k tcb gid s above pos small own = (
  record k {
    thread_count = k.thread_count + 1;
    thread_list = store k.thread_list k.thread_count (tcb % 256);
  },
  inserted,
  refl,
  ground arith,
  λ i j p q. ground (arith, s i j, above i),
)
  where
    last : thread_list_find k gid ≡ k.thread_count
    last = thread_list_find-end k gid above pos

    inserted :
        thread_list_insert k tcb gid
        ≡ some (record k {
          thread_count = k.thread_count + 1;
          thread_list = store k.thread_list k.thread_count (tcb % 256);
        })
    inserted =
        let one : k.thread_count + 1 - k.thread_count ≡ 1 = omega arith in
        rw (last, one) (ground arith)

find-front :
    (k : Kernel) (gid : ℕ)
    → k.thread_count ≡ 2
    → thread_no gid < number_at k 1
    → thread_list_find k gid ≡ 0
unfolding thread_list_find find_loop
find-front k gid two high = ground arith

insert-front :
    (k : Kernel) (tcb gid : ℕ)
    → k.thread_count ≡ 2
    → thread_list_find k gid ≡ 0
    → number_at k 0 < thread_no gid
    → thread_list_insert k tcb gid
      ≡ some (record k { thread_count = 3; thread_list = shift_in 3 0 tcb k.thread_list })
unfolding thread_list_insert thread_no
insert-front k tcb gid two front low = rw (front, two) (ground arith)

-- Inserting one of the 16 blocks into a list of two, whose first entry is a block, returns; where
-- the thread number falls between theirs, the block goes to the front, and the list is not
-- sorted.
pub thread_list_insert-not-IsSorted :
    (k : Kernel) (tcb gid : ℕ)
    → k.thread_count ≡ 2
    → number_at k 0 < thread_no gid
    → thread_no gid < number_at k 1
    → tcb < 16
    → k.thread_list 0 < 16
    → (k.tcb_store tcb).global_id ≡ gid
    → (k' : Kernel) × (thread_list_insert k tcb gid ≡ some k')
      × (k'.thread_list 0 ≡ tcb)
      × ¬ IsSorted k'
unfolding shift_in store
thread_list_insert-not-IsSorted k tcb gid two low high small small' own = (
  record k { thread_count = 3; thread_list = shift_in 3 0 tcb k.thread_list },
  insert-front k tcb gid two (find-front k gid two high) low,
  ground arith,
  λ s. ground (arith, s 0 1),
)
