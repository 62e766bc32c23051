-- ===== src/Scheduler/Kept.antt =====
-- What `set_thread_state` of kern/thread.c leaves alone, and the states that it leaves.
use bradyp_os.Base.{ℕ, ◌≡◌, ◌==◌, if◌then◌else◌, arith}
use bradyp_os.Kernel.{ThreadState, Kernel, put_tcb}
use bradyp_os.Thread.Find.{SameNames}
use bradyp_os.Scheduler.{
  set_thread_state, adjust_schedule, thread_schedule_insert, unschedule, thread_schedule_delete,
}
use bradyp_os.Scheduler.Update.{adjust_schedule-SameThreads}

-- All but the heap, the states of the threads and what the memory holds.
pub record Kept (k k' : Kernel) : Type 0 where
  pub alarm : k'.alarm ≡ k.alarm
  pub caller : k'.caller ≡ k.caller
  pub kern_tcb : k'.kern_tcb ≡ k.kern_tcb
  pub pending : k'.softirq_pending ≡ k.softirq_pending
  pub current : k'.current_thread_idx ≡ k.current_thread_idx
  pub spaces : k'.as_pool ≡ k.as_pool
  pub names : SameNames k k'

module _ (k : Kernel) (t : ℕ) (s : ThreadState) where
  set_thread_state-names : SameNames k (set_thread_state k t s)
  unfolding set_thread_state adjust_schedule thread_schedule_insert unschedule
      thread_schedule_delete put_tcb
  set_thread_state-names = record {
    list = ground arith;
    length = ground arith;
    ids = λ x. ground arith;
  }

  pub set_thread_state-Kept : Kept k (set_thread_state k t s)
  unfolding set_thread_state adjust_schedule thread_schedule_insert unschedule
      thread_schedule_delete put_tcb
  set_thread_state-Kept = record {
    alarm = ground arith;
    caller = ground arith;
    kern_tcb = ground arith;
    pending = ground arith;
    current = ground arith;
    spaces = ground arith;
    names = set_thread_state-names;
  }

  pub set_thread_state-state :
      (x : ℕ)
      → ((set_thread_state k t s).tcb_store x).state ≡ (if x == t then s else (k.tcb_store x).state)
  unfolding set_thread_state put_tcb
  set_thread_state-state x = rw ((adjust_schedule-SameThreads k t s).blocks) (ground arith)
