-- ===== src/Kernel.antt =====
-- The state of the kernel: kern/include/kern/thread.h, kern/include/kern/memory.h and the static
-- variables of kern/thread.c, kern/memory.c, kern/softirq.c and kern/syscall.c. A `struct tcb_t *`
-- is the index of the block in `tcb_store`, a `struct as_t *` the index in `as_pool`; NULL is `none`.
-- The event of the thread at index i stands at i in the alarm's events, that of the scheduler at 16.
pub mod Sample
use bradyp_os.Base.{ℕ, Bool, true, false, Option, ◌==◌, if◌then◌else◌}
use bradyp_os.Base.Array.{Array}
use bradyp_os.Heap.{Heap}
use bradyp_os.Alarm.{Alarm}

-- `enum thread_state_t`
pub data ThreadState : Type 0 where
  inactive active runnable svc_blocked recv_blocked send_blocked paused : ThreadState

pub ThreadState-discrete : Discrete ThreadState
ThreadState-discrete = hlevel

abbrev pub is_runnable : ThreadState → Bool
is_runnable runnable = true
is_runnable _ = false

abbrev pub is_active : ThreadState → Bool
is_active active = true
is_active _ = false

abbrev pub is_recv_blocked : ThreadState → Bool
is_recv_blocked recv_blocked = true
is_recv_blocked _ = false

abbrev pub is_send_blocked : ThreadState → Bool
is_send_blocked send_blocked = true
is_send_blocked _ = false

-- `struct thread_context_t`
pub record Context : Type 0 where
  pub sp : ℕ
  pub ret : ℕ
  pub r : Array

-- `struct tcb_t`, less the event; `space` is the field `as`, and `utcb` an address.
pub record Tcb : Type 0 where
  pub global_id : ℕ
  pub local_id : ℕ
  pub state : ThreadState
  pub ctx : Context
  pub space : Option ℕ
  pub utcb : ℕ
  pub priority : ℕ
  pub pager : ℕ
  pub scheduler : ℕ
  pub ipc_from : ℕ
  pub next_sibling : Option ℕ
  pub prev_sibling : Option ℕ

-- `struct as_t`
pub record Space : Type 0 where
  pub ref_count : ℕ
  pub utcb_page : ℕ
  pub first_thread : Option ℕ

-- The bit sets `tcb_store_allocated` and `as_allocated` are tests on the bit's number. `memory` is
-- the memory of the threads, by word address; `pendsv` says that the interrupt of the context switch
-- is pending, and `softirq_pending` that the only soft interrupt, that of a system call, is.
pub record Kernel : Type 0 where
  pub tcb_store : ℕ → Tcb
  pub tcb_store_allocated : ℕ → Bool
  pub thread_count : ℕ
  pub thread_list : Array
  pub schedule : Heap
  pub current_thread_idx : ℕ
  pub schedule_target : Option ℕ
  pub pendsv : Bool
  pub alarm : Alarm
  pub as_pool : ℕ → Space
  pub as_allocated : ℕ → Bool
  pub memory : Array
  pub caller : ℕ
  pub softirq_pending : Bool
  pub kern_tcb : ℕ
  pub root_tcb : ℕ

abbrev pub thread_max_count : ℕ
thread_max_count = 16

abbrev pub thread_idx_invalid : ℕ
thread_idx_invalid = 17

-- The scheduler's event `reschedule_event`, behind those of the threads.
abbrev pub reschedule_event : ℕ
reschedule_event = 16

-- `enum kalarm_type`
abbrev pub kalarm_reschedule : ℕ
kalarm_reschedule = 0

abbrev pub kalarm_unpause : ℕ
kalarm_unpause = 1

abbrev pub kalarm_timeout : ℕ
kalarm_timeout = 2

-- `tcb_store[i] = t`
unfoldable pub put_tcb : Kernel → ℕ → Tcb → Kernel
put_tcb k i t = record k { tcb_store = λ j. if j == i then t else k.tcb_store j }

abbrev pub set_bit : (ℕ → Bool) → ℕ → Bool → ℕ → Bool
set_bit f i b j = if j == i then b else f j
