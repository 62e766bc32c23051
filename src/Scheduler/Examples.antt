-- ===== src/Scheduler/Examples.antt =====
-- The scheduler of kern/thread.c with one running and one waiting thread.
use bradyp_os.Base.{ℕ, zero, suc, ◌+◌, ◌%◌, ◌^◌, ◌≡◌, refl, inr, none, some, arith, bit}
use bradyp_os.Base.Array.{count}
use bradyp_os.Alarm.{Alarm, update_kalarm_event}
use bradyp_os.Kernel.{Kernel, ThreadState, reschedule_event}
use bradyp_os.Kernel.Sample.{sample, quiet}
use bradyp_os.Scheduler.{set_thread_state, schedule_next_thread, delete_thread}
use bradyp_os.Scheduler.State.{queued, is_waiting, IsScheduled}
use bradyp_os.Scheduler.Update.{set_thread_state-IsScheduled}
use bradyp_os.Scheduler.Next.{IsSwitched, schedule_next_thread-IsSwitched}

sample_waits : (x : ℕ) → queued sample x ≡ bit (is_waiting sample x)
unfolding count
sample_waits zero = refl
sample_waits (suc zero) = refl
sample_waits (suc (suc n)) = ground arith

sample-IsScheduled : IsScheduled sample
unfolding count
sample-IsScheduled = record { exact = λ x p. sample_waits x; inside = λ x p. ground arith }

set_thread_state-IsScheduled_example :
    IsScheduled (set_thread_state sample 1 ThreadState.recv_blocked)
set_thread_state-IsScheduled_example =
    set_thread_state-IsScheduled sample 1 ThreadState.recv_blocked sample-IsScheduled (omega arith)
      refl

-- Thread 0 runs and has just been blocked.
abbrev blocked : Kernel
blocked = set_thread_state sample 0 ThreadState.svc_blocked

blocked-IsScheduled : IsScheduled blocked
blocked-IsScheduled =
    set_thread_state-IsScheduled sample 0 ThreadState.svc_blocked sample-IsScheduled (omega arith)
      refl

abbrev moved : Alarm
moved = elim (update_kalarm_event quiet reschedule_event 10) [ none ↦ quiet | some a ↦ a ]

moved_runs : update_kalarm_event quiet reschedule_event ((0 + 10) % 2 ^ 32) ≡ some moved
unfolding update_kalarm_event
moved_runs = refl

schedule_next_thread-IsSwitched_example :
    (k' : Kernel) × (schedule_next_thread sample ≡ some k') × IsSwitched sample k'
schedule_next_thread-IsSwitched_example =
    schedule_next_thread-IsSwitched sample 1 moved sample-IsScheduled (inr (omega arith)) tt
      (omega arith) refl moved_runs

abbrev killed : Kernel
killed = elim (delete_thread sample 0) [ none ↦ sample | some k ↦ k ]
