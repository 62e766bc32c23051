-- ===== src/Calls/Examples.antt =====
-- System calls of kern/syscall.c and kern/syscall/*.c by a thread beside the kernel's.
use bradyp_os.Base.{
  ℕ, zero, suc, ◌+◌, ◌%◌, ◌^◌, ◌<◌, ◌≡◌, refl, inr, none, some, arith, bit, ◌==◌, if◌then◌else◌,
}
use bradyp_os.Base.Array.{Array, count}
use bradyp_os.Alarm.{Alarm, update_kalarm_event}
use bradyp_os.Ids.{anythread, is_nil_thread, thread_no}
use bradyp_os.Kernel.{ThreadState, Kernel, Tcb, reschedule_event, thread_max_count}
use bradyp_os.Kernel.Sample.{sample, serving, served_block, quiet, zeros, block}
use bradyp_os.Memory.Utcb
use bradyp_os.Memory.{load_stack, load_utcb}
use bradyp_os.Scheduler.{schedule_next_thread}
use bradyp_os.Scheduler.State.{IsScheduled, queued, is_waiting}
use bradyp_os.Scheduler.Frame.{IsServing, IsTable}
use bradyp_os.Ipc.Phases.{syscall_ipc, ipc_send, after_send}
use bradyp_os.Calls.{error_no_privilege}
use bradyp_os.Calls.Dispatch.{
  Interface, softirq_svc, isr_svcall, sys_schedule, sys_thread_control, sys_ipc,
}
use bradyp_os.Calls.Deferred.{IsDeferred, isr_svcall-IsDeferred}
use bradyp_os.Calls.Answers.{softirq_svc-answers, softirq_svc-stays_blocked}

abbrev interface : Interface
interface = record {
  address = 0;
  api_version = 0;
  api_flags = 0;
  kernel_id = 0;
  kip_fpage = 0x2000;
}

serving-IsTable : (number : ℕ) (m : Array) → IsTable (serving number m)
serving-IsTable number m = record { list = list; firsts = λ s t e. absurd (cc); siblings = next }
  where
    list : (i : ℕ) → (serving number m).thread_list i < thread_max_count
    list zero = omega arith
    list (suc zero) = omega arith
    list (suc (suc n)) = omega arith

    next : (x t : ℕ) → ((serving number m).tcb_store x).next_sibling ≡ some t → t < thread_max_count
    next zero t e = absurd (cc)
    next (suc zero) t e = absurd (cc)
    next (suc (suc n)) t e = absurd (cc)

serving_waits :
    (number : ℕ) (m : Array) (x : ℕ)
    → queued (serving number m) x ≡ bit (is_waiting (serving number m) x)
unfolding count
serving_waits number m zero = refl
serving_waits number m (suc zero) = refl
serving_waits number m (suc (suc n)) = refl

serving-IsServing : (number : ℕ) (m : Array) → IsServing (serving number m)
unfolding count
serving-IsServing number m = record {
  scheduled = record { exact = λ x p. serving_waits number m x; inside = λ x p. refl };
  runs = refl;
  tables = serving-IsTable number m;
}

-- The caller receives from any thread, and no timeout is set.
abbrev receives : Array
receives x = if x == 129 then anythread else 0

abbrev receiving : Kernel
receiving = elim (syscall_ipc (serving sys_ipc receives)) [ none ↦ sample | some k ↦ k ]

receiving_blocked : (receiving.tcb_store 1).state ≡ ThreadState.recv_blocked
unfolding syscall_ipc thread_no ipc_send load_stack after_send
receiving_blocked = refl

-- The caller asks for the state of the thread 0x108001, which is itself.
abbrev asks : Array
asks x = if x == 128 then 0x108001 else 0

abbrev scheduled : Kernel
scheduled = elim (softirq_svc interface (serving sys_schedule asks)) [ none ↦ sample | some k ↦ k ]

scheduled_runs : softirq_svc interface (serving sys_schedule asks) ≡ some scheduled
unfolding softirq_svc thread_no
scheduled_runs = refl

softirq_svc-answers_example : (scheduled.tcb_store 1).state ≡ ThreadState.runnable
softirq_svc-answers_example =
    softirq_svc-answers interface (serving sys_schedule asks) {k' = scheduled}
      (serving-IsServing sys_schedule asks) (inr (inr (inr refl))) scheduled_runs

-- The caller names the kernel's own thread as the destination.
abbrev intrudes : Array
intrudes x = if x == 128 then 0x84001 else 0

softirq_svc-stays_blocked_example :
    (k' : Kernel) × (softirq_svc interface (serving sys_thread_control intrudes) ≡ some k')
    × (k'.tcb_store ≡ (serving sys_thread_control intrudes).tcb_store)
    × (load_utcb k' 1 Utcb.error ≡ error_no_privilege)
softirq_svc-stays_blocked_example =
    softirq_svc-stays_blocked interface (serving sys_thread_control intrudes) refl
      (unfold load_stack is_nil_thread in refl) (unfold load_stack thread_no in omega arith)

-- The thread 1 has a space with a page.
abbrev housed_block : ℕ → Tcb
housed_block zero = served_block 1 0
housed_block (suc n) = record (served_block 1 1) { space = some 3 }

abbrev housed : Kernel
housed = record (serving 1 zeros) {
  tcb_store = housed_block;
  as_pool = λ i. record { ref_count = 1; utcb_page = 0x4000; first_thread = some 1 };
}

-- The thread 1 runs, and the kernel's rests.
abbrev calling_block : ℕ → Tcb
calling_block zero = block 0x100001 ThreadState.inactive
calling_block (suc zero) = block 0x108001 ThreadState.runnable
calling_block (suc (suc n)) = block 0x104001 ThreadState.inactive

abbrev calling : Kernel
calling = record (serving 7 zeros) { tcb_store = calling_block; current_thread_idx = 1 }

calling_waits : (x : ℕ) → queued calling x ≡ bit (is_waiting calling x)
unfolding count
calling_waits zero = refl
calling_waits (suc zero) = refl
calling_waits (suc (suc n)) = refl

calling-IsScheduled : IsScheduled calling
unfolding count
calling-IsScheduled = record { exact = λ x p. calling_waits x; inside = λ x p. refl }

abbrev moved : Alarm
moved = elim (update_kalarm_event quiet reschedule_event 10) [ none ↦ quiet | some a ↦ a ]

moved_runs : update_kalarm_event quiet reschedule_event ((0 + 10) % 2 ^ 32) ≡ some moved
unfolding update_kalarm_event
moved_runs = refl

isr_svcall-IsDeferred_example :
    (k1 : Kernel) × (k2 : Kernel) × (isr_svcall calling 7 0 ≡ some k1)
    × (schedule_next_thread k1 ≡ some k2)
    × IsDeferred calling k2
isr_svcall-IsDeferred_example =
    isr_svcall-IsDeferred calling calling-IsScheduled (omega arith) (omega arith) (omega arith) 7 0
      moved (omega arith) (omega arith) moved_runs
