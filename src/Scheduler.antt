-- ===== src/Scheduler.antt =====
-- kern/thread.c: the scheduler. The heap holds the indices of the runnable threads that do not run,
-- the threads with the lowest priority value first. `none` means that the kernel panics. The masking
-- of interrupts and the saving of registers are not modelled.
pub mod Room
pub mod State
pub mod Update
pub mod Next
pub mod Kept
pub mod Frame
pub mod Kill
pub mod Priority
mod Examples
use bradyp_os.Base.{
  ℕ, zero, suc, ◌+◌, ◌%◌, ◌^◌, Bool, true, false, not, ◌&&◌, Option, none, some, ltb, ◌==◌,
  if◌then◌else◌, ◌>>=◌,
}
use bradyp_os.Base.Array.{Array}
use bradyp_os.Heap
use bradyp_os.Heap.{Heap, fail}
use bradyp_os.Alarm.{Event, Alarm, put, register_kalarm_event, update_kalarm_event}
use bradyp_os.Kernel.{
  ThreadState, is_runnable, Tcb, Kernel, put_tcb, thread_max_count, thread_idx_invalid,
  reschedule_event, kalarm_unpause,
}
use bradyp_os.Thread.{thread_list_delete, free_tcb}

unfoldable pub compare_thread_by_prio : Kernel → ℕ → ℕ → Bool
compare_thread_by_prio k lhs rhs = ltb (k.tcb_store lhs).priority (k.tcb_store rhs).priority

-- The instances of the heap's functions for the scheduler.
unfoldable pub thread_schedule_insert : Kernel → ℕ → Kernel
thread_schedule_insert k i = record k {
  schedule = (Heap.insert (compare_thread_by_prio k) thread_max_count k.schedule i).0;
}

unfoldable pub thread_schedule_delete : Kernel → ℕ → Kernel
thread_schedule_delete k i = record k {
  schedule = Heap.delete (compare_thread_by_prio k) k.schedule i;
}

unfoldable pub thread_schedule_pop : Kernel → Kernel
thread_schedule_pop k = record k { schedule = Heap.pop (compare_thread_by_prio k) k.schedule }

-- The loop of `find_idx_in_heap` over `n` entries from `i` on.
pub find_from : ℕ → ℕ → Array → ℕ → ℕ
find_from zero i a idx = fail
find_from (suc n) i a idx = let rest = find_from n (i + 1) a idx in if a i == idx then i else rest

unfoldable pub find_idx_in_heap : Kernel → ℕ → ℕ
unfolding find_from
find_idx_in_heap k idx = find_from k.schedule.size 0 k.schedule.items idx

-- `if (heap_idx != thread_schedule_fail) thread_schedule_delete(heap_idx);`
unfoldable pub unschedule : Kernel → ℕ → Kernel
unfolding find_idx_in_heap thread_schedule_delete
unschedule k t = let i = find_idx_in_heap k t in if i == fail then k else thread_schedule_delete k i

abbrev pub with_state : Kernel → ℕ → ThreadState → Kernel
with_state k t s = put_tcb k t (record (k.tcb_store t) { state = s })

-- What `set_thread_state` does to the heap.
unfoldable pub adjust_schedule : Kernel → ℕ → ThreadState → Kernel
unfolding thread_schedule_insert unschedule
adjust_schedule k t s =
    let was = is_runnable (k.tcb_store t).state in
    if is_runnable s && not was
    then thread_schedule_insert k t
    else if not (is_runnable s) && was
    then unschedule k t
    else k

unfoldable pub set_thread_state : Kernel → ℕ → ThreadState → Kernel
unfolding adjust_schedule put_tcb
set_thread_state k t s = with_state (adjust_schedule k t s) t s

unfoldable pub set_thread_priority : Kernel → ℕ → ℕ → Kernel
unfolding find_idx_in_heap put_tcb compare_thread_by_prio
set_thread_priority k t prio =
    let k1 = put_tcb k t (record (k.tcb_store t) { priority = prio }) in
    let i = find_idx_in_heap k1 t in
    let before = compare_thread_by_prio k1 in
    let (a, j) = Heap.sink before k1.schedule.size k1.schedule.items i in
    let (b, j') = Heap.swim before a j in
    if i == fail then k1 else record k1 { schedule = record (k1.schedule) { items = b } }

-- The interrupt that switches threads is pended, too.
unfoldable pub request_reschedule : Kernel → Option ℕ → Kernel
request_reschedule k target = record k { schedule_target = target; pendsv = true }

unfoldable pub find_thread_idx_to_schedule : Kernel → Option (ℕ × Kernel)
unfolding thread_schedule_pop
find_thread_idx_to_schedule k =
    if k.schedule.size == 0 then none else some (k.schedule.items 0, thread_schedule_pop k)

-- The loop looks for the entry of the target, which is the loop of `find_idx_in_heap`.
unfoldable pub find_thread_idx_to_schedule_from_target : Kernel → ℕ → Option (ℕ × Kernel)
unfolding find_idx_in_heap thread_schedule_delete find_thread_idx_to_schedule
find_thread_idx_to_schedule_from_target k target =
    let i = find_idx_in_heap k target in
    if i == fail
    then find_thread_idx_to_schedule k
    else if is_runnable (k.tcb_store target).state
    then some (target, thread_schedule_delete k i)
    else none

-- The running thread goes back to the heap, if it can run on.
unfoldable pub requeue_current : Kernel → Kernel
unfolding thread_schedule_insert
requeue_current k =
    if not (k.current_thread_idx == thread_idx_invalid)
      && is_runnable (k.tcb_store k.current_thread_idx).state
    then thread_schedule_insert k k.current_thread_idx
    else k

-- The thread to run next: `schedule_target != NULL ? ... : ...`.
unfoldable pub pick : Kernel → Option ℕ → Option (ℕ × Kernel)
unfolding find_thread_idx_to_schedule find_thread_idx_to_schedule_from_target
pick k none = find_thread_idx_to_schedule k
pick k (some t) = find_thread_idx_to_schedule_from_target k t

unfoldable pub schedule_next_thread : Kernel → Option Kernel
unfolding requeue_current pick
schedule_next_thread k = do
  let k0 = requeue_current k
  (idx, k1) ← pick k0 k0.schedule_target
  alarm ← update_kalarm_event k1.alarm reschedule_event ((k1.alarm.current_time + 10) % 2 ^ 32)
  some (record k1 { alarm = alarm; current_thread_idx = idx })

abbrev is_none : Option ℕ → Bool
is_none none = true
is_none (some e) = false

unfoldable pub pause_thread : Kernel → ℕ → ℕ → Option Kernel
unfolding set_thread_state put
pause_thread k t until =
    let old = k.alarm.events t in
    let event : Event = record {
      when = until;
      kind = kalarm_unpause;
      payload = (k.tcb_store t).global_id;
      prev = none;
      next = none;
    } in
    let queued =
      register_kalarm_event (record (k.alarm) { events = put k.alarm.events t event }) t
      >>= λ alarm. some (set_thread_state (record k { alarm = alarm }) t ThreadState.paused) in
    if is_none old.prev && is_none old.next then queued else none

-- `if (p) p->prev_sibling = q;` and `if (p) p->next_sibling = q;`
set_prev_sibling? : Kernel → Option ℕ → Option ℕ → Kernel
unfolding put_tcb
set_prev_sibling? k none q = k
set_prev_sibling? k (some p) q = put_tcb k p (record (k.tcb_store p) { prev_sibling = q })

set_next_sibling? : Kernel → Option ℕ → Option ℕ → Kernel
unfolding put_tcb
set_next_sibling? k none q = k
set_next_sibling? k (some p) q = put_tcb k p (record (k.tcb_store p) { next_sibling = q })

unlink_siblings : Kernel → ℕ → Kernel
unfolding set_prev_sibling? set_next_sibling?
unlink_siblings k t =
    let k1 = set_prev_sibling? k (k.tcb_store t).next_sibling (k.tcb_store t).prev_sibling in
    set_next_sibling? k1 (k1.tcb_store t).prev_sibling (k1.tcb_store t).next_sibling

unfoldable pub delete_thread : Kernel → ℕ → Option Kernel
unfolding unschedule thread_list_delete unlink_siblings free_tcb
delete_thread k t =
    let k1 = if is_runnable (k.tcb_store t).state then unschedule k t else k in
    thread_list_delete k1 (k1.tcb_store t).global_id >>= λ k2.
    some (free_tcb (unlink_siblings k2 t) t)

unfoldable pub get_current_thread : Kernel → Option ℕ
get_current_thread k =
    if k.current_thread_idx == thread_idx_invalid then none else some k.current_thread_idx
