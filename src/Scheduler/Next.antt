-- ===== src/Scheduler/Next.antt =====
-- `schedule_next_thread` of kern/thread.c: it finds a runnable thread whenever there is one, prefers
-- the requested one, and restores the scheduler's invariant for the thread that it chose.
use native.Mathlib.Decide.{dec_lt}
use bradyp_os.Base.{
  ℕ, ◌+◌, ◌%◌, ◌^◌, ◌≤◌, ◌<◌, ◌≡◌, ◌≢◌, ◌⊎◌, inl, inr, refl, ◌∙◌, true, false, not, ◌&&◌, Option,
  none, some, ◌==◌, bit, arith, Bool-cases, eq_of_test, ne_of_test, ◌>>=◌,
}
use bradyp_os.Base.Array.{count}
use bradyp_os.Heap.{fail}
use bradyp_os.Heap.Contents.{count-pop}
use bradyp_os.Alarm.{Alarm, update_kalarm_event}
use bradyp_os.Kernel.{is_runnable, Kernel, thread_max_count, thread_idx_invalid, reschedule_event}
use bradyp_os.Scheduler.{
  compare_thread_by_prio, thread_schedule_insert, thread_schedule_delete, thread_schedule_pop,
  find_idx_in_heap, unschedule, find_thread_idx_to_schedule,
  find_thread_idx_to_schedule_from_target, requeue_current, pick, schedule_next_thread,
}
use bradyp_os.Scheduler.Room.{count_pos, count_zero, size-le}
use bradyp_os.Scheduler.State.{
  queued, IsScheduled, find_from-hit, find_from-miss, bit_le, queued-unschedule,
}
use bradyp_os.Scheduler.Update.{queued-insert}

-- The heap holds each runnable thread once, and nothing else.
record IsReady (k : Kernel) : Type 0 where
  exact : (x : ℕ) → x < thread_max_count → queued k x ≡ bit (is_runnable (k.tcb_store x).state)
  inside : (x : ℕ) → thread_max_count ≤ x → queued k x ≡ 0

-- The running thread is none or one of the 16.
abbrev pub IsCurrent : Kernel → Type 0
IsCurrent k =
    (k.current_thread_idx ≡ thread_idx_invalid) ⊎ (k.current_thread_idx < thread_max_count)

requeue_current-same :
    (k : Kernel)
    → ((requeue_current k).tcb_store ≡ k.tcb_store)
      × ((requeue_current k).schedule_target ≡ k.schedule_target)
      × ((requeue_current k).alarm ≡ k.alarm)
unfolding requeue_current thread_schedule_insert
requeue_current-same k = ground arith

requeue_current-IsReady : (k : Kernel) → IsScheduled k → IsCurrent k → IsReady (requeue_current k)
unfolding requeue_current
requeue_current-IsReady k v c =
    elim (Bool-cases (
      not (k.current_thread_idx == thread_idx_invalid)
      && is_runnable (k.tcb_store k.current_thread_idx).state)) [
        | inl back ↦
            let listed : k.current_thread_idx < thread_max_count = ground arith in
            let absent : queued k k.current_thread_idx ≡ 0 =
              ground (arith, v.exact k.current_thread_idx) in
            rw back (record {
              exact = λ x p. ground (
                arith,
                queued-insert k v k.current_thread_idx listed x absent,
                v.exact x,
                same k,
              );
              inside = λ x p.
                  ground
                    (arith, queued-insert k v k.current_thread_idx listed x absent, v.inside x);
            })
        | inr stays ↦
            rw stays (record { exact = λ x p. ground (arith, v.exact x); inside = v.inside })
      ]
  where
    same : (k : Kernel) → (thread_schedule_insert k k.current_thread_idx).tcb_store ≡ k.tcb_store
    same k = unfold thread_schedule_insert in refl

-- The thread `i` is runnable, and the heap of `k'` is that of `k` without it.
record IsPicked (k : Kernel) (i : ℕ) (k' : Kernel) : Type 0 where
  listed : i < thread_max_count
  can_run : is_runnable (k.tcb_store i).state ≡ true
  rest : (x : ℕ) → queued k' x + bit (i == x) ≡ queued k x
  blocks : k'.tcb_store ≡ k.tcb_store

module _ (k : Kernel) (v : IsReady k) where
  ready_once : (x : ℕ) → x < thread_max_count → queued k x ≤ 1
  ready_once x p = omega (arith, v.exact x p, bit_le (is_runnable (k.tcb_store x).state))

  ready_size : k.schedule.size ≤ thread_max_count
  ready_size = size-le thread_max_count k.schedule.items k.schedule.size v.inside ready_once

  in_heap :
      (x : ℕ) → 0 < queued k x → (x < thread_max_count) × (is_runnable (k.tcb_store x).state ≡ true)
  in_heap x p = (ground (arith, v.inside x), ground (arith, v.inside x, v.exact x))

  pop-IsPicked : 0 < k.schedule.size → IsPicked k (k.schedule.items 0) (thread_schedule_pop k)
  unfolding thread_schedule_pop
  pop-IsPicked some_left =
      let (p, r) =
        in_heap (k.schedule.items 0) (count_pos k.schedule.items k.schedule.size 0 some_left) in
      record {
        listed = p;
        can_run = r;
        rest = λ x.
            count-pop (compare_thread_by_prio k) x k.schedule some_left (omega (arith, ready_size));
        blocks = refl;
      }

missing : (k : Kernel) → IsReady k → (t : ℕ) → find_idx_in_heap k t ≡ fail → queued k t ≡ 0
unfolding find_idx_in_heap
missing k v t e = count_zero t k.schedule.items k.schedule.size (λ j q.
    find_from-miss k.schedule.size 0 k.schedule.items t e (omega (arith, ready_size k v)) j
      (omega arith) (omega arith))

hit_pos : (k : Kernel) (t : ℕ) → find_idx_in_heap k t ≢ fail → 0 < queued k t
unfolding find_idx_in_heap
hit_pos k t e =
    let f = find_from-hit k.schedule.size 0 k.schedule.items t e in
    rw f.1 at
      (count_pos k.schedule.items k.schedule.size (find_idx_in_heap k t) (omega (arith, f.0)))

-- The outcome of choosing a thread: a runnable one, taken out of the heap.
record Picks (k : Kernel) (r : Option (ℕ × Kernel)) : Type 0 where
  chosen : ℕ
  after : Kernel
  result : r ≡ some (chosen, after)
  picked : IsPicked k chosen after
  alarm : after.alarm ≡ k.alarm

module _ (k : Kernel) (v : IsReady k) where
  size_pos :
      (x : ℕ)
      → x < thread_max_count
      → is_runnable (k.tcb_store x).state ≡ true
      → 0 < k.schedule.size
  size_pos x p r = elim (dec_lt 0 k.schedule.size) [
    | yes q ↦ q
    | no q ↦
        let empty : k.schedule.size ≡ 0 = omega arith in
        let one : queued k x ≡ 1 = ground (arith, v.exact x) in
        let none_there : count x k.schedule.items 0 ≡ 0 = unfold count in refl in
        absurd (omega (arith, rw empty at one, none_there))
  ]

  find-Picks : 0 < k.schedule.size → Picks k (find_thread_idx_to_schedule k)
  unfolding find_thread_idx_to_schedule
  find-Picks some_left = record {
    chosen = k.schedule.items 0;
    after = thread_schedule_pop k;
    result = let e : (k.schedule.size == 0) ≡ false = ground arith in rw e;
    picked = pop-IsPicked k v some_left;
    alarm = unfold thread_schedule_pop in refl;
  }

  target-Picks :
      (t : ℕ)
      → t < thread_max_count
      → is_runnable (k.tcb_store t).state ≡ true
      → (p : Picks k (find_thread_idx_to_schedule_from_target k t)) × (p.chosen ≡ t)
  unfolding find_thread_idx_to_schedule_from_target
  target-Picks t listed r = (
    record {
      chosen = t;
      after = thread_schedule_delete k (find_idx_in_heap k t);
      result = rw (present, r);
      picked = record {
        listed = listed;
        can_run = r;
        rest = λ x.
            rw (unscheduled) at (queued-unschedule k t (ready_size k v) x (omega (arith, one)));
        blocks = unfold thread_schedule_delete in refl;
      };
      alarm = unfold thread_schedule_delete in refl;
    },
    refl,
  )
    where
      one : queued k t ≡ 1
      one = ground (arith, v.exact t)

      present : (find_idx_in_heap k t == fail) ≡ false
      present = elim (Bool-cases (find_idx_in_heap k t == fail)) [
        | inr e ↦ e
        | inl e ↦
            absurd (omega (arith, one, missing k v t (eq_of_test (find_idx_in_heap k t) fail e)))
      ]

      unscheduled : unschedule k t ≡ thread_schedule_delete k (find_idx_in_heap k t)
      unscheduled = unfold unschedule in rw present

  -- A target that cannot run is not in the heap, and the first of the heap is taken.
  target-Picks_blocked :
      (t : ℕ)
      → t < thread_max_count
      → is_runnable (k.tcb_store t).state ≡ false
      → 0 < k.schedule.size
      → Picks k (find_thread_idx_to_schedule_from_target k t)
  unfolding find_thread_idx_to_schedule_from_target
  target-Picks_blocked t listed r some_left = rw absent (find-Picks some_left)
    where
      absent : (find_idx_in_heap k t == fail) ≡ true
      absent = elim (Bool-cases (find_idx_in_heap k t == fail)) [
        | inl e ↦ e
        | inr e ↦
            let zero_there : queued k t ≡ 0 = ground (arith, v.exact t) in
            let pos : 0 < queued k t = hit_pos k t (ne_of_test (find_idx_in_heap k t) fail e) in
            absurd (omega (arith, zero_there, pos))
      ]

-- The requested thread, where there is one, is a block of the store.
abbrev pub IsTarget : Option ℕ → Type 0
IsTarget none = Unit
IsTarget (some t) = t < thread_max_count

-- The thread that was asked for is chosen, if it can run.
abbrev pub Honours : Kernel → Option ℕ → ℕ → Type 0
Honours k none i = Unit
Honours k (some t) i = is_runnable (k.tcb_store t).state ≡ true → i ≡ t

choose :
    (k : Kernel) (v : IsReady k) (target : Option ℕ)
    → IsTarget target
    → 0 < k.schedule.size
    → (p : Picks k (pick k target)) × Honours k target p.chosen
unfolding pick
choose k v none i some_left = (find-Picks k v some_left, tt)
choose k v (some t) i some_left = elim (Bool-cases (is_runnable (k.tcb_store t).state)) [
  | inl r ↦ ((target-Picks k v t i r).0, λ _. (target-Picks k v t i r).1)
  | inr r ↦ (target-Picks_blocked k v t i r some_left, λ r'. absurd (ground arith))
]

-- The outcome of `schedule_next_thread`: a runnable thread runs, the requested one if it can, and the
-- invariant holds for it. The blocks of the threads are unchanged.
pub record IsSwitched (k k' : Kernel) : Type 0 where
  pub scheduled : IsScheduled k'
  pub listed : k'.current_thread_idx < thread_max_count
  pub runs : is_runnable (k'.tcb_store k'.current_thread_idx).state ≡ true
  pub honours : Honours k k.schedule_target k'.current_thread_idx
  pub blocks : k'.tcb_store ≡ k.tcb_store

Honours-same :
    (k k' : Kernel) (target : Option ℕ) (i : ℕ)
    → k.tcb_store ≡ k'.tcb_store
    → Honours k target i
    → Honours k' target i
Honours-same k k' none i e h = tt
Honours-same k k' (some t) i e h = rw (← e) h

-- The heap without the chosen thread, and that thread running.
switched-IsScheduled :
    (k : Kernel) (i : ℕ) (k' : Kernel) (alarm : Alarm)
    → IsReady k
    → IsPicked k i k'
    → IsScheduled (record k' { alarm = alarm; current_thread_idx = i })
switched-IsScheduled k i k' alarm w q = record {
  exact = λ x p. rw q.blocks (elim (Bool-cases (x == i)) [
    | inl e ↦
        let same : x ≡ i = eq_of_test x i e in
        rw same (ground (arith, q.rest i, w.exact i q.listed, q.can_run))
    | inr e ↦ ground (arith, q.rest x, w.exact x)
  ]);
  inside = λ x p. omega (arith, q.rest x, w.inside x p);
}

-- In a state of the scheduler's invariant, where the running thread and the requested one are
-- each none or one of the 16, some thread is runnable, and the scheduler's event can be moved to 10
-- ticks from now on the clock of 32 bits, `schedule_next_thread` returns, and switches as `IsSwitched` says.
pub schedule_next_thread-IsSwitched :
    (k : Kernel) (x : ℕ) (alarm : Alarm)
    → IsScheduled k
    → IsCurrent k
    → IsTarget k.schedule_target
    → x < thread_max_count
    → is_runnable (k.tcb_store x).state ≡ true
    → update_kalarm_event k.alarm reschedule_event ((k.alarm.current_time + 10) % 2 ^ 32)
      ≡ some alarm
    → (k' : Kernel) × (schedule_next_thread k ≡ some k') × IsSwitched k k'
schedule_next_thread-IsSwitched k x alarm v c target p r a =
    let (blocks, goal, clock) = requeue_current-same k in
    let w = requeue_current-IsReady k v c in
    let some_left = size_pos (requeue_current k) w x p (rw blocks r) in
    let (q, h) = choose (requeue_current k) w k.schedule_target target some_left in
    finish q h blocks goal clock w
  where
    run :
        (q : Picks (requeue_current k) (pick (requeue_current k) k.schedule_target))
        → (requeue_current k).schedule_target ≡ k.schedule_target
        → (requeue_current k).alarm ≡ k.alarm
        → schedule_next_thread k
          ≡ some (record (q.after) { alarm = alarm; current_thread_idx = q.chosen })
    run q goal clock =
        unfold schedule_next_thread in rw (goal, q.result, ◌>>=◌, q.alarm, clock, a, ◌>>=◌) refl

    finish :
        (q : Picks (requeue_current k) (pick (requeue_current k) k.schedule_target))
        → Honours (requeue_current k) k.schedule_target q.chosen
        → (requeue_current k).tcb_store ≡ k.tcb_store
        → (requeue_current k).schedule_target ≡ k.schedule_target
        → (requeue_current k).alarm ≡ k.alarm
        → IsReady (requeue_current k)
        → (k' : Kernel) × (schedule_next_thread k ≡ some k') × IsSwitched k k'
    finish q h blocks goal clock w = (
      record (q.after) { alarm = alarm; current_thread_idx = q.chosen },
      run q goal clock,
      record {
        scheduled = switched-IsScheduled (requeue_current k) q.chosen q.after alarm w q.picked;
        listed = q.picked.listed;
        runs = rw q.picked.blocks q.picked.can_run;
        honours = Honours-same (requeue_current k) k k.schedule_target q.chosen blocks h;
        blocks = q.picked.blocks ∙ blocks;
      },
    )
