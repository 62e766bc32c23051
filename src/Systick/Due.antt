-- ===== src/Systick/Due.antt =====
-- The loop of `__isr_systick` of kern/kalarm.c runs the events that are due.
use bradyp_os.Base.{
  ℕ, zero, suc, ◌+◌, ◌%◌, ◌^◌, ◌≤◌, ◌<◌, ◌≡◌, ◌⊎◌, refl, inl, inr, ◌∙◌, true, false, not, ◌&&◌,
  none, some, List, [], ◌∷◌, ◌++◌, arith, Option-cases, Bool-cases, ◌>>=◌, ap,
}
use bradyp_os.Base.Array.{Array}
use bradyp_os.Base.Lists.{length}
use bradyp_os.Alarm.{Event, Alarm, has_pending_kalarm, chain_limit}
use bradyp_os.Alarm.Chain.{IsQueue, Distinct}
use bradyp_os.Alarm.Queue.{SameEvents, pop-IsQueue, pop-kept, IsSegment-frame}
use bradyp_os.Kernel.{
  ThreadState, Kernel, kalarm_reschedule, kalarm_timeout, kalarm_unpause, is_recv_blocked,
  is_send_blocked,
}
use bradyp_os.Memory.{save_utcb}
use bradyp_os.Thread.{find_thread_by_global_id}
use bradyp_os.Thread.Find.{SameNames, find_thread-same}
use bradyp_os.Scheduler.{set_thread_state, request_reschedule}
use bradyp_os.Scheduler.Kept.{set_thread_state-Kept}
use bradyp_os.Ipc.Phases.{time_out, do_ipc_timeout, set_ipc_error}
use bradyp_os.Systick.{
  run_event, run_first, run_due, request_next_thread, unpause_thread, isr_systick,
}

-- A step of an event leaves the alarm alone, and the names of the threads.
record Keeps (k k' : Kernel) : Type 0 where
  alarm : k'.alarm ≡ k.alarm
  names : SameNames k k'

nothing-Keeps : (k : Kernel) → Keeps k k
nothing-Keeps k = record {
  alarm = refl;
  names = record { list = refl; length = refl; ids = λ x. refl };
}

-- Writes to the memory of the threads come before the change of the state.
written-Keeps :
    (k : Kernel) (m : Array) (t : ℕ) (s : ThreadState)
    → Keeps k (set_thread_state (record k { memory = m }) t s)
written-Keeps k m t s =
    let e = set_thread_state-Kept (record k { memory = m }) t s in
    record {
      alarm = e.alarm;
      names = record { list = e.names.list; length = e.names.length; ids = e.names.ids };
    }

time_out-Keeps : (k : Kernel) (t : ℕ) → Keeps k (time_out k t)
unfolding time_out save_utcb set_ipc_error
time_out-Keeps k t =
    elim (Bool-cases (
      not (is_recv_blocked (k.tcb_store t).state) && not (is_send_blocked (k.tcb_store t).state))) [
        | inl other ↦ rw other (nothing-Keeps k)
        | inr blocked ↦ rw blocked (written-Keeps k _ t ThreadState.runnable)
      ]

do_ipc_timeout-Keeps : (k : Kernel) (n : ℕ) → Keeps k (do_ipc_timeout k n)
unfolding do_ipc_timeout
do_ipc_timeout-Keeps k n = elim (Option-cases (find_thread_by_global_id k n)) [
  | inl e ↦ rw (do_ipc_timeout, e) (nothing-Keeps k)
  | inr (t, e) ↦ rw (do_ipc_timeout, e) (time_out-Keeps k t)
]

-- An event that the interrupt can run: a pause ends for a thread that exists.
abbrev pub CanRun : Kernel → Event → Type 0
CanRun k ev =
    (ev.kind ≡ kalarm_reschedule)
    ⊎ (ev.kind ≡ kalarm_timeout)
    ⊎ ((ev.kind ≡ kalarm_unpause) × ((t : ℕ) × (find_thread_by_global_id k ev.payload ≡ some t)))

run_event-Keeps :
    (k : Kernel) (ev : Event)
    → CanRun k ev
    → (k' : Kernel) × (run_event k ev ≡ some k') × Keeps k k'
unfolding run_event request_next_thread request_reschedule unpause_thread
run_event-Keeps k ev (inl e) = (
  request_next_thread k,
  rw e refl,
  record { alarm = refl; names = record { list = refl; length = refl; ids = λ x. refl } },
)
run_event-Keeps k ev (inr (inl e)) =
    (do_ipc_timeout k ev.payload, rw e refl, do_ipc_timeout-Keeps k ev.payload)
run_event-Keeps k ev (inr (inr (e, (t, found)))) =
    let s = set_thread_state-Kept k t ThreadState.runnable in
    (
      request_reschedule (set_thread_state k t ThreadState.runnable) none,
      rw (e, found, unpause_thread) refl,
      record {
        alarm = s.alarm;
        names = record { list = s.names.list; length = s.names.length; ids = s.names.ids };
      },
    )

-- The events of the list are due at time `t`, and can run.
abbrev pub AllDue : Kernel → Alarm → List ℕ → ℕ → Type 0
AllDue k s [] t = Unit
AllDue k s (x ∷ xs) t = ((s.events x).when ≤ t) × CanRun k (s.events x) × AllDue k s xs t

-- The first event of the list is not due at time `t`.
abbrev pub Waits : Alarm → List ℕ → ℕ → Type 0
Waits s [] t = Unit
Waits s (x ∷ xs) t = t < (s.events x).when

CanRun-same :
    (k k' : Kernel) (s s' : Alarm) (x : ℕ)
    → SameNames k k'
    → SameEvents s s'
    → CanRun k (s.events x)
    → CanRun k' (s'.events x)
CanRun-same k k' s s' x n e (inl c) = inl (e.kinds x ∙ c)
CanRun-same k k' s s' x n e (inr (inl c)) = inr (inl (e.kinds x ∙ c))
CanRun-same k k' s s' x n e (inr (inr (c, (t, found)))) =
    inr (inr (e.kinds x ∙ c, (t, rw (e.payloads, find_thread-same k k' _ n) found)))

AllDue-same :
    (k k' : Kernel) (s s' : Alarm) (xs : List ℕ) (t : ℕ)
    → SameNames k k'
    → SameEvents s s'
    → AllDue k s xs t
    → AllDue k' s' xs t
AllDue-same k k' s s' [] t n e d = tt
AllDue-same k k' s s' (x ∷ xs) t n e d =
    (rw e.times d.0, CanRun-same k k' s s' x n e d.1, AllDue-same k k' s s' xs t n e d.2)

Waits-same : (s s' : Alarm) (xs : List ℕ) (t : ℕ) → SameEvents s s' → Waits s xs t → Waits s' xs t
Waits-same s s' [] t e d = tt
Waits-same s s' (x ∷ xs) t e d = rw e.times d

rests :
    (s : Alarm) (rest : List ℕ)
    → IsQueue s rest
    → Waits s rest s.current_time
    → has_pending_kalarm s ≡ false
unfolding has_pending_kalarm
rests s [] q w = rw q refl
rests s (x ∷ xs) q w = rw q.0 (ground arith)

pends :
    (s : Alarm) (x : ℕ) (xs : List ℕ)
    → IsQueue s (x ∷ xs)
    → (s.events x).when ≤ s.current_time
    → has_pending_kalarm s ≡ true
unfolding has_pending_kalarm
pends s x xs q w = rw q.0 (ground arith)

-- What the loop leaves: the queue of the events that are not due yet.
record Drained (k k' : Kernel) (rest : List ℕ) : Type 0 where
  queue : IsQueue k'.alarm rest
  clock : k'.alarm.current_time ≡ k.alarm.current_time

run_due_drains :
    (due rest : List ℕ) (fuel : ℕ) (k : Kernel)
    → length due < fuel
    → IsQueue k.alarm (due ++ rest)
    → Distinct (due ++ rest)
    → AllDue k k.alarm due k.alarm.current_time
    → Waits k.alarm rest k.alarm.current_time
    → (k' : Kernel) × (run_due fuel k ≡ some k') × Drained k k' rest
unfolding run_due run_first
run_due_drains due rest zero k f q d a w = absurd (omega arith)
run_due_drains [] rest (suc fuel) k f q d a w =
    (k, rw (run_due, rests k.alarm rest q w) refl, record { queue = q; clock = refl })
run_due_drains (x ∷ due) rest (suc fuel) k f q d a w =
    let (s, popped, queue, _, _) = pop-IsQueue k.alarm x (due ++ rest) q d in
    let (e, clock) = pop-kept k.alarm s x popped in
    let k1 : Kernel = record k { alarm = s } in
    let named : SameNames k k1 = record { list = refl; length = refl; ids = λ y. refl } in
    let (k2, ran, kept) =
      run_event-Keeps k1 (s.events x) (CanRun-same k k1 k.alarm s x named e a.1) in
    let same : k2.alarm ≡ s = kept.alarm in
    let names : SameNames k k2 = record {
      list = kept.names.list;
      length = kept.names.length;
      ids = kept.names.ids;
    } in
    let (k3, result, left) =
      run_due_drains due rest fuel k2 (omega arith) (rw same queue) d.1
        (rw (same, clock) (AllDue-same k k2 k.alarm s due k.alarm.current_time names e a.2))
        (rw (same, clock) (Waits-same k.alarm s rest k.alarm.current_time e w)) in
    (
      k3,
      rw (run_due, pends k.alarm x (due ++ rest) q a.0, popped, ◌>>=◌, ran, ◌>>=◌) result,
      record { queue = left.queue; clock = left.clock ∙ ap (λ b. b.current_time) same ∙ clock },
    )

-- Where the queue holds distinct events, of which first at most 17 are due after the tick, none of
-- these ends the pause of a thread that does not exist, and the first of the others is not due, the
-- timer's interrupt returns, with the others queued in order and the clock one tick further.
pub isr_systick-drains :
    (k : Kernel) (due rest : List ℕ)
    → IsQueue k.alarm (due ++ rest)
    → Distinct (due ++ rest)
    → AllDue k k.alarm due ((k.alarm.current_time + 1) % 2 ^ 32)
    → Waits k.alarm rest ((k.alarm.current_time + 1) % 2 ^ 32)
    → length due ≤ 17
    → (k' : Kernel) × (isr_systick k ≡ some k')
      × IsQueue k'.alarm rest
      × (k'.alarm.current_time ≡ (k.alarm.current_time + 1) % 2 ^ 32)
unfolding isr_systick
isr_systick-drains k due rest q d a w short =
    let now = (k.alarm.current_time + 1) % 2 ^ 32 in
    let s : Alarm = record (k.alarm) { current_time = now } in
    let same : SameEvents k.alarm s = record {
      times = λ e. refl;
      kinds = λ e. refl;
      payloads = λ e. refl;
    } in
    let named : SameNames k (record k { alarm = s }) = record {
      list = refl;
      length = refl;
      ids = λ y. refl;
    } in
    let (k', ran, left) =
      run_due_drains due rest chain_limit (record k { alarm = s }) (omega arith)
        (IsSegment-frame k.alarm s k.alarm.next_event (due ++ rest) none (λ e i. refl) q) d
        (AllDue-same k (record k { alarm = s }) k.alarm s due now named same a)
        (Waits-same k.alarm s rest now same w) in
    (k', ran, left.queue, left.clock)
