-- ===== src/Scheduler/Frame.antt =====
-- Changes of the kernel's state that leave the scheduler of kern/thread.c alone, and those that leave
-- the tables alone by which threads are found.
use bradyp_os.Base.{ℕ, ◌<◌, ◌≡◌, ◌≢◌, refl, ◌∙◌, true, some, arith}
use bradyp_os.Base.Array.{Array}
use bradyp_os.Kernel.{ThreadState, is_runnable, Tcb, Kernel, put_tcb, thread_max_count}
use bradyp_os.Scheduler.{
  set_thread_state, adjust_schedule, thread_schedule_insert, unschedule, thread_schedule_delete,
  with_state,
}
use bradyp_os.Scheduler.State.{IsScheduled}
use bradyp_os.Scheduler.Update.{set_thread_state-IsScheduled, adjust_schedule-SameThreads}

-- The heap, the running thread and the states of the threads are the same.
pub record SameRun (k k' : Kernel) : Type 0 where
  pub heap : k'.schedule ≡ k.schedule
  pub current : k'.current_thread_idx ≡ k.current_thread_idx
  pub states : (x : ℕ) → (k'.tcb_store x).state ≡ (k.tcb_store x).state

pub SameRun-trans : {k k' k'' : Kernel} → SameRun k k' → SameRun k' k'' → SameRun k k''
SameRun-trans s s' = record {
  heap = s'.heap ∙ s.heap;
  current = s'.current ∙ s.current;
  states = λ x. s'.states x ∙ s.states x;
}

pub SameRun-IsScheduled : {k k' : Kernel} → SameRun k k' → IsScheduled k → IsScheduled k'
SameRun-IsScheduled s v = record {
  exact = λ x p. rw (s.heap, s.current, s.states) (v.exact x p);
  inside = λ x p. rw s.heap (v.inside x p);
}

-- The tables: the list of threads, and the chains of the address spaces.
pub record SameTables (k k' : Kernel) : Type 0 where
  pub list : k'.thread_list ≡ k.thread_list
  pub spaces : k'.as_pool ≡ k.as_pool
  pub siblings : (x : ℕ) → (k'.tcb_store x).next_sibling ≡ (k.tcb_store x).next_sibling

-- Every thread that the tables name is one of the 16.
pub record IsTable (k : Kernel) : Type 0 where
  pub list : (i : ℕ) → k.thread_list i < thread_max_count
  pub firsts : (s t : ℕ) → (k.as_pool s).first_thread ≡ some t → t < thread_max_count
  pub siblings : (x t : ℕ) → (k.tcb_store x).next_sibling ≡ some t → t < thread_max_count

pub SameTables-IsTable : {k k' : Kernel} → SameTables k k' → IsTable k → IsTable k'
SameTables-IsTable s v = record {
  list = λ i. rw s.list (v.list i);
  firsts = λ i t e. v.firsts i t (rw s.spaces at e);
  siblings = λ x t e. v.siblings x t (rw s.siblings at e);
}

-- The kernel while its thread works: the scheduler's invariant, a running thread that can run, and
-- sound tables.
pub record IsServing (k : Kernel) : Type 0 where
  pub scheduled : IsScheduled k
  pub runs : is_runnable (k.tcb_store k.current_thread_idx).state ≡ true
  pub tables : IsTable k

-- Neither the scheduler nor the tables change.
pub record SameFrame (k k' : Kernel) : Type 0 where
  pub run : SameRun k k'
  pub tables : SameTables k k'

pub SameFrame-refl : (k : Kernel) → SameFrame k k
SameFrame-refl k = record {
  run = record { heap = refl; current = refl; states = λ x. refl };
  tables = record { list = refl; spaces = refl; siblings = λ x. refl };
}

pub SameFrame-trans : {k k' k'' : Kernel} → SameFrame k k' → SameFrame k' k'' → SameFrame k k''
SameFrame-trans s s' = record {
  run = SameRun-trans s.run s'.run;
  tables = record {
    list = s'.tables.list ∙ s.tables.list;
    spaces = s'.tables.spaces ∙ s.tables.spaces;
    siblings = λ x. s'.tables.siblings x ∙ s.tables.siblings x;
  };
}

pub SameFrame-IsServing : {k k' : Kernel} → SameFrame k k' → IsServing k → IsServing k'
SameFrame-IsServing s v = record {
  scheduled = SameRun-IsScheduled s.run v.scheduled;
  runs = rw (s.run.current, s.run.states) v.runs;
  tables = SameTables-IsTable s.tables v.tables;
}

pub memory-SameFrame : (k : Kernel) (m : Array) → SameFrame k (record k { memory = m })
memory-SameFrame k m = record {
  run = record { heap = refl; current = refl; states = λ x. refl };
  tables = record { list = refl; spaces = refl; siblings = λ x. refl };
}

pub put_tcb-SameFrame :
    (k : Kernel) (t : ℕ) (tcb : Tcb)
    → tcb.state ≡ (k.tcb_store t).state
    → tcb.next_sibling ≡ (k.tcb_store t).next_sibling
    → SameFrame k (put_tcb k t tcb)
unfolding put_tcb
put_tcb-SameFrame k t tcb e f = record {
  run = record { heap = refl; current = refl; states = λ x. ground arith };
  tables = record { list = refl; spaces = refl; siblings = λ x. ground arith };
}

adjust_schedule-SameTables :
    (k : Kernel) (t : ℕ) (s : ThreadState) → SameTables k (adjust_schedule k t s)
unfolding adjust_schedule thread_schedule_insert unschedule thread_schedule_delete
adjust_schedule-SameTables k t s = record {
  list = ground arith;
  spaces = ground arith;
  siblings = λ x. ground arith;
}

with_state-SameTables :
    (k k' : Kernel) (t : ℕ) (s : ThreadState) → SameTables k k' → SameTables k (with_state k' t s)
unfolding put_tcb
with_state-SameTables k k' t s same = record {
  list = same.list;
  spaces = same.spaces;
  siblings = λ x. ground (arith, same.siblings x);
}

module _ (k : Kernel) (v : IsServing k) (t : ℕ) (s : ThreadState) where
  set_thread_state-current_state :
      t ≢ k.current_thread_idx
      → is_runnable
          ((set_thread_state k t s).tcb_store (set_thread_state k t s).current_thread_idx).state
        ≡ true
  unfolding set_thread_state put_tcb
  set_thread_state-current_state other =
      let same = adjust_schedule-SameThreads k t s in
      rw (same.blocks, same.current) (ground (arith, v.runs))

  -- Another thread than the running one may change its state.
  pub set_thread_state-IsServing :
      t < thread_max_count → t ≢ k.current_thread_idx → IsServing (set_thread_state k t s)
  unfolding set_thread_state
  set_thread_state-IsServing listed other = record {
    scheduled = set_thread_state-IsScheduled k t s v.scheduled listed (ground arith);
    runs = set_thread_state-current_state other;
    tables =
        SameTables-IsTable
          (with_state-SameTables k (adjust_schedule k t s) t s (adjust_schedule-SameTables k t s))
          v.tables;
  }

-- A thread of the table that does not run.
abbrev pub IsOther : Kernel → ℕ → Type 0
IsOther k t = (t < thread_max_count) × (t ≢ k.current_thread_idx)

-- The kernel's thread goes on: it runs still, and the kernel's state is as it should be.
pub record Continues (k k' : Kernel) : Type 0 where
  pub serving : IsServing k'
  pub current : k'.current_thread_idx ≡ k.current_thread_idx

pub Continues-trans : {k k' k'' : Kernel} → Continues k k' → Continues k' k'' → Continues k k''
Continues-trans c c' = record { serving = c'.serving; current = c'.current ∙ c.current }

pub Continues-refl : {k : Kernel} → IsServing k → Continues k k
Continues-refl v = record { serving = v; current = refl }

pub SameFrame-Continues : {k k' : Kernel} → SameFrame k k' → IsServing k → Continues k k'
SameFrame-Continues s v = record { serving = SameFrame-IsServing s v; current = s.run.current }

pub Continues-IsOther : {k k' : Kernel} {t : ℕ} → Continues k k' → IsOther k t → IsOther k' t
Continues-IsOther c o = (o.0, rw c.current o.1)

set_thread_state-current_idx :
    (k : Kernel) (t : ℕ) (s : ThreadState)
    → (set_thread_state k t s).current_thread_idx ≡ k.current_thread_idx
unfolding set_thread_state put_tcb
set_thread_state-current_idx k t s = (adjust_schedule-SameThreads k t s).current

pub set_thread_state-Continues :
    {k k' : Kernel} (t : ℕ) (s : ThreadState)
    → Continues k k'
    → IsOther k t
    → Continues k (set_thread_state k' t s)
set_thread_state-Continues {k} {k'} t s c o =
    let o' = Continues-IsOther {k = k} {k' = k'} {t = t} c o in
    record {
      serving = set_thread_state-IsServing k' c.serving t s o'.0 o'.1;
      current = set_thread_state-current_idx k' t s ∙ c.current;
    }
