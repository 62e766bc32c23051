-- ===== src/Spaces/Examples.antt =====
-- A new address space, and a fault of the thread with the number 0x42 in the handler of kern/memory.c.
use bradyp_os.Base.{ℕ, zero, suc, ◌≡◌, refl, true, false, none, some, arith, bit}
use bradyp_os.Base.Array.{count}
use bradyp_os.Ids.{thread_no}
use bradyp_os.Kernel.{Kernel}
use bradyp_os.Kernel.Sample.{sample, zeros}
use bradyp_os.Scheduler.{requeue_current}
use bradyp_os.Scheduler.State.{queued, is_waiting, IsScheduled}
use bradyp_os.Spaces.{create_as, isr_hardfault}
use bradyp_os.Spaces.Fault.{fault-queued}

abbrev with_first : Kernel
with_first = elim (create_as sample 1) [ none ↦ sample | some r ↦ r.1 ]

create_as_runs : create_as sample 1 ≡ some (0, with_first)
unfolding create_as
create_as_runs = refl

-- Thread 1 runs, and thread 0 waits.
abbrev second_runs : Kernel
second_runs = record sample {
  current_thread_idx = 1;
  schedule = record { size = 1; items = zeros };
}

second_waits : (x : ℕ) → queued second_runs x ≡ bit (is_waiting second_runs x)
unfolding count
second_waits zero = refl
second_waits (suc zero) = refl
second_waits (suc (suc n)) = ground arith

second-IsScheduled : IsScheduled second_runs
unfolding count
second-IsScheduled = record { exact = λ x p. second_waits x; inside = λ x p. ground arith }

abbrev faulted : Kernel
faulted = elim (isr_hardfault second_runs true) [ none ↦ sample | some k ↦ k ]

fault_runs : isr_hardfault second_runs true ≡ some faulted
unfolding isr_hardfault thread_no
fault_runs = refl

fault-queued_example :
    (faulted.tcb_store_allocated 1 ≡ false) × (queued (requeue_current faulted) 1 ≡ 1)
fault-queued_example =
    fault-queued second_runs {k' = faulted} second-IsScheduled (omega arith) refl fault_runs
