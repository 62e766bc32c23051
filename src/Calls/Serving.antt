-- ===== src/Calls/Serving.antt =====
-- The system calls of kern/syscall.c and kern/syscall/*.c, the scheduler's invariant, and what becomes
-- of the caller.
use mathlib.Core.Option
use mathlib.Core.Path.{subst}
use bradyp_os.Base.{
  ℕ, ◌≡◌, refl, inl, inr, not, ◌&&◌, Option, none, some, ltb, ◌==◌, arith, Bool-cases, some_inj,
  if_inv, no_result,
}
use bradyp_os.Kernel.{Kernel, put_tcb}
use bradyp_os.Memory.{save_stack, save_utcb}
use bradyp_os.Thread.{find_thread_by_global_id}
use bradyp_os.Scheduler.{set_thread_priority}
use bradyp_os.Scheduler.Priority.{
  set_thread_priority-IsScheduled, set_thread_priority-states, set_thread_priority-current,
}
use bradyp_os.Scheduler.Frame.{
  IsServing, SameTables, SameTables-IsTable, Continues, Continues-trans, Continues-refl,
  SameFrame-Continues, memory-SameFrame,
}
use bradyp_os.Calls.Schedule.{refuse, unchanged, may_schedule, apply_schedule, schedule_thread}

-- A step of the kernel's thread that serves the same caller.
pub record Serves (k k' : Kernel) : Type 0 where
  pub continues : Continues k k'
  pub caller : k'.caller ≡ k.caller

module _ (k : Kernel) (v : IsServing k) where
  refuse-Serves : (error : ℕ) → Serves k (refuse k error)
  unfolding refuse save_utcb save_stack
  refuse-Serves error = record {
    continues = SameFrame-Continues (memory-SameFrame k _) v;
    caller = refl;
  }

  set_thread_priority-SameTables : (t prio : ℕ) → SameTables k (set_thread_priority k t prio)
  unfolding set_thread_priority put_tcb
  set_thread_priority-SameTables t prio = record {
    list = ground arith;
    spaces = ground arith;
    siblings = λ x. ground arith;
  }

  set_thread_priority-Serves : (t prio : ℕ) → Serves k (set_thread_priority k t prio)
  set_thread_priority-Serves t prio = record {
    continues = record {
      serving = record {
        scheduled = (set_thread_priority-IsScheduled k t prio v.scheduled).1;
        runs =
            rw (set_thread_priority-current k t prio, set_thread_priority-states k t prio) v.runs;
        tables = SameTables-IsTable (set_thread_priority-SameTables t prio) v.tables;
      };
      current = set_thread_priority-current k t prio;
    };
    caller = unfold set_thread_priority put_tcb in ground arith;
  }

by_some : {k x k' : Kernel} → some x ≡ some k' → Serves k x → Serves k k'
by_some {k} h s = subst (λ y. Serves k y) (some_inj h) s

written-Serves : {k k1 : Kernel} (m : ℕ → ℕ) → Serves k k1 → Serves k (record k1 { memory = m })
written-Serves {k} {k1} m s = record {
  continues =
      Continues-trans s.continues (SameFrame-Continues (memory-SameFrame k1 m) s.continues.serving);
  caller = s.caller;
}

module _ (k : Kernel) (v : IsServing k) where
  apply_schedule-Serves : (t prio : ℕ) → Serves k (apply_schedule k t prio)
  unfolding apply_schedule save_utcb save_stack
  apply_schedule-Serves t prio = elim (Bool-cases (prio == unchanged)) [
    | inl keep ↦ rw keep (written-Serves _ (record { continues = Continues-refl v; caller = refl }))
    | inr set ↦ rw set (written-Serves _ (set_thread_priority-Serves k v t prio))
  ]

  pub schedule_thread-Serves :
      (t : Option ℕ) (processor prio preemption : ℕ) {k' : Kernel}
      → schedule_thread k t processor prio preemption ≡ some k'
      → Serves k k'
  unfolding schedule_thread
  schedule_thread-Serves none processor prio preemption h = by_some h (refuse-Serves k v 2)
  schedule_thread-Serves (some t) processor prio preemption {k'} h =
      elim (if_inv (not (may_schedule k (find_thread_by_global_id k (k.tcb_store t).scheduler)))
        h) [
          | inl a ↦ by_some a (refuse-Serves k v 1)
          | inr h1 ↦ elim (if_inv (not (processor == unchanged) && not (processor == 0)) h1) [
            | inl a ↦ by_some a (refuse-Serves k v 5)
            | inr h2 ↦
                elim (if_inv (not (prio == unchanged) && ltb prio (k.tcb_store k.caller).priority)
                  h2) [
                    | inl a ↦ by_some a (refuse-Serves k v 5)
                    | inr h3 ↦ elim (if_inv (not (preemption == unchanged)) h3) [
                      | inl a ↦ no_result a
                      | inr a ↦ by_some a (apply_schedule-Serves t prio)
                    ]
                  ]
          ]
        ]

pub map-some :
    (f : Kernel → Kernel) (o : Option Kernel) {k' : Kernel}
    → Option.map f o ≡ some k'
    → (k1 : Kernel) × (o ≡ some k1) × (f k1 ≡ k')
map-some f none h = absurd (cc)
map-some f (some k1) h = (k1, refl, some_inj h)
