-- ===== src/Thread.antt =====
-- kern/thread.c: the thread control blocks and the list of threads, ordered by thread number.
-- `none` as a whole result means that the kernel panics or that an assertion fails. An array is read
-- and written as the memory behind it would be; the bounds are theorems.
pub mod Find
pub mod Insert
pub mod Blocks
pub mod Delete
mod Examples
use bradyp_os.Base.{
  ℕ, zero, suc, ◌+◌, ◌-◌, ◌/◌, ◌%◌, ◌^◌, Bool, true, false, not, ◌&&◌, ◌||◌, Option, none, some,
  ltb, leb, ◌==◌, if◌then◌else◌, ◌>>=◌,
}
use bradyp_os.Base.Array.{Array, store}
use bradyp_os.Ids.{nilthread, thread_no, same_threads, version}
use bradyp_os.Alarm.{put}
use bradyp_os.Kernel.{
  ThreadState, Tcb, Kernel, put_tcb, set_bit, thread_max_count, thread_idx_invalid,
  reschedule_event, kalarm_reschedule,
}

unfoldable pub init_thread_system : Kernel → Kernel
unfolding put
init_thread_system k =
    let e = k.alarm.events reschedule_event in
    record k {
      tcb_store_allocated = λ i. false;
      thread_count = 0;
      current_thread_idx = thread_idx_invalid;
      alarm = record (k.alarm) {
        events =
            put k.alarm.events reschedule_event (record e { kind = kalarm_reschedule; when = 0 });
      };
    }

-- The thread number of the entry `i` of the thread list.
abbrev pub number_at : Kernel → ℕ → ℕ
number_at k i = thread_no (k.tcb_store (k.thread_list i)).global_id

-- The `do` loop of `thread_list_find`. Each round shrinks `high - low`, so `fuel` rounds are enough
-- where `high - low` is below `fuel`.
find_loop : ℕ → Kernel → ℕ → (low high : ℕ) → ℕ
find_loop zero k number low high = low
find_loop (suc fuel) k number low high =
    let mid = (low + high) / 2 in
    let above = find_loop fuel k number (mid + 1) high in
    let below = find_loop fuel k number low (mid - 1) in
    if number_at k mid == number
    then mid
    else if ltb (number_at k mid) number
    then (if mid == k.thread_count then mid else if ltb (mid + 1) high then above else mid + 1)
    else if mid == 0
    then 0
    else if ltb low (mid - 1)
    then below
    else low

unfoldable pub thread_list_find : Kernel → ℕ → ℕ
unfolding find_loop
thread_list_find k gid = find_loop (suc k.thread_count) k (thread_no gid) 0 k.thread_count

unfoldable pub thread_map_find : Kernel → ℕ → ℕ
unfolding thread_list_find same_threads
thread_map_find k gid =
    let idx = thread_list_find k gid in
    if not (same_threads (k.tcb_store (k.thread_list idx)).global_id gid)
    then thread_idx_invalid
    else k.thread_list idx

unfoldable pub find_thread_by_global_id : Kernel → ℕ → Option ℕ
unfolding thread_map_find
find_thread_by_global_id k gid =
    let idx = thread_map_find k gid in if idx == thread_idx_invalid then none else some idx

unfoldable pub get_thread_by_index : Kernel → ℕ → ℕ
get_thread_by_index k i = k.thread_list i

-- The loop of `allocate_tcb` from block `i` on.
allocate_from : ℕ → ℕ → Kernel → Option (ℕ × Kernel)
allocate_from zero i k = none
allocate_from (suc n) i k =
    let rest = allocate_from n (i + 1) k in
    if k.tcb_store_allocated i
    then rest
    else some (i, record k { tcb_store_allocated = set_bit k.tcb_store_allocated i true })

unfoldable pub allocate_tcb : Kernel → Option (ℕ × Kernel)
unfolding allocate_from
allocate_tcb k = allocate_from thread_max_count 0 k

unfoldable pub free_tcb : Kernel → ℕ → Kernel
free_tcb k tcb = record k { tcb_store_allocated = set_bit k.tcb_store_allocated tcb false }

-- The loop of `thread_list_insert`: `n` entries from `i` on move up, and `v` takes the first place.
-- The entries are of type `unsigned char`.
shift_in : ℕ → ℕ → ℕ → Array → Array
unfolding store
shift_in zero i v a = a
shift_in (suc n) i v a = shift_in n (i + 1) (a i) (store a i (v % 256))

unfoldable pub thread_list_insert : Kernel → ℕ → ℕ → Option Kernel
unfolding thread_list_find shift_in
thread_list_insert k tcb gid =
    let idx = thread_list_find k gid in
    let count = k.thread_count + 1 in
    if leb k.thread_count idx || not ((k.tcb_store (k.thread_list idx)).global_id == gid)
    then some (record k {
      thread_count = count;
      thread_list = shift_in (count - idx) idx tcb k.thread_list;
    })
    else none

-- The loop of `thread_list_delete`.
bump : ℕ → ℕ → Array → Array
unfolding store
bump zero i a = a
bump (suc n) i a = bump n (i + 1) (store a i ((a i + 1) % 256))

unfoldable pub thread_list_delete : Kernel → ℕ → Option Kernel
unfolding thread_list_find bump
thread_list_delete k gid =
    let idx = thread_list_find k gid in
    let count = k.thread_count - 1 in
    if leb k.thread_count 0
    then none
    else some
        (record k { thread_count = count; thread_list = bump (count - idx) idx k.thread_list })

-- The fields that `create_thread` sets; the others keep what the block held before.
unfoldable pub new_tcb : Tcb → ℕ → Tcb
new_tcb old gid = record old {
  global_id = gid;
  local_id = 0;
  pager = nilthread;
  scheduler = nilthread;
  space = none;
  priority = 42;
  state = ThreadState.inactive;
  utcb = 0;
}

-- The thread's index, or `none` inside where the C function returns NULL.
unfoldable pub create_thread : Kernel → ℕ → Option (Option ℕ × Kernel)
unfolding allocate_tcb new_tcb put_tcb thread_list_insert version
create_thread k gid =
    if version gid == 0
    then none
    else if k.thread_count == thread_max_count
    then some (none, k)
    else elim (allocate_tcb k) [
      | none ↦ some (none, k)
      | some (i, k1) ↦
          thread_list_insert (put_tcb k1 i (new_tcb (k1.tcb_store i) gid)) i gid >>= λ k2.
          some (some i, k2)
    ]
