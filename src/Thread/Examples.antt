-- ===== src/Thread/Examples.antt =====
-- The thread list of kern/thread.c on two threads.
use bradyp_os.Base.{ℕ, zero, suc, ◌+◌, ◌-◌, ◌%◌, ◌≤◌, ◌<◌, ◌≡◌, refl, none, some, arith}
use bradyp_os.Ids.{thread_no}
use bradyp_os.Kernel.{Kernel, Tcb}
use bradyp_os.Kernel.Sample.{sample}
use bradyp_os.Thread.{
  number_at, find_thread_by_global_id, thread_list_insert, thread_list_delete, create_thread,
}
use bradyp_os.Thread.Find.{IsSorted, find_thread-listed}
use bradyp_os.Thread.Insert.{thread_list_insert-not-IsSorted}
use bradyp_os.Thread.Delete.{thread_list_delete_entries}
use bradyp_os.Thread.Blocks.{IsCreated, create_thread-IsCreated}

sample-IsSorted : IsSorted sample
unfolding thread_no
sample-IsSorted zero zero p q = absurd (omega arith)
sample-IsSorted zero (suc zero) p q = omega arith
sample-IsSorted zero (suc (suc j)) p q = absurd (omega arith)
sample-IsSorted (suc i) zero p q = absurd (omega arith)
sample-IsSorted (suc i) (suc zero) p q = absurd (omega arith)
sample-IsSorted (suc i) (suc (suc j)) p q = absurd (omega arith)

found_second : find_thread_by_global_id sample 0x108001 ≡ some 1
unfolding find_thread_by_global_id
found_second = refl

find_thread-listed_example : find_thread_by_global_id sample 0x108001 ≡ some 1
find_thread-listed_example =
    find_thread-listed sample 0x108001 1 sample-IsSorted (unfold thread_no in refl) (omega arith)
      (omega arith)

-- Block 3 holds the number 0x43.
abbrev above : ℕ → Tcb
above zero = sample.tcb_store 0
above (suc zero) = sample.tcb_store 1
above (suc (suc n)) = record (sample.tcb_store 2) { global_id = 0x10C001 }

abbrev grown : Kernel
grown = record (sample) { tcb_store = above }

grown-IsSorted : IsSorted grown
unfolding thread_no
grown-IsSorted zero zero p q = absurd (omega arith)
grown-IsSorted zero (suc zero) p q = omega arith
grown-IsSorted zero (suc (suc j)) p q = absurd (omega arith)
grown-IsSorted (suc i) zero p q = absurd (omega arith)
grown-IsSorted (suc i) (suc zero) p q = absurd (omega arith)
grown-IsSorted (suc i) (suc (suc j)) p q = absurd (omega arith)

grown_below : (i : ℕ) → i < grown.thread_count → number_at grown i < thread_no 0x10C001
unfolding thread_no
grown_below zero p = omega arith
grown_below (suc zero) p = omega arith
grown_below (suc (suc i)) p = absurd (omega arith)

thread_list_insert-not-IsSorted_example :
    (k' : Kernel) × (thread_list_insert sample 2 0x104001 ≡ some k')
    × (k'.thread_list 0 ≡ 2)
    × ¬ IsSorted k'
thread_list_insert-not-IsSorted_example =
    thread_list_insert-not-IsSorted sample 2 0x104001 refl (unfold thread_no in omega arith)
      (unfold thread_no in omega arith) (omega arith) (omega arith) refl

thread_list_delete_entries_example :
    (k' : Kernel) × (thread_list_delete sample 0x100001 ≡ some k')
    × (k'.thread_count ≡ 2 - 1)
    × ((j : ℕ) → j < 0 → k'.thread_list j ≡ sample.thread_list j)
    × ((j : ℕ) → 0 ≤ j → j < 2 - 1 → k'.thread_list j ≡ (sample.thread_list j + 1) % 256)
thread_list_delete_entries_example =
    thread_list_delete_entries sample 0x100001 0 sample-IsSorted refl (omega arith)

abbrev created : Kernel
created = elim (create_thread sample 0x10C001) [ none ↦ sample | some (_, k) ↦ k ]

create_runs : create_thread sample 0x10C001 ≡ some (some 2, created)
unfolding create_thread thread_no
create_runs = refl

create_thread-IsCreated_example : IsCreated sample 0x10C001 2 created
create_thread-IsCreated_example =
    create_thread-IsCreated sample 0x10C001 {i = 2} {k' = created} create_runs
