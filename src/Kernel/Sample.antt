-- ===== src/Kernel/Sample.antt =====
-- Small states of the kernel for the tests: two threads with the numbers 0x40 and 0x42, and a block
-- with the number 0x41 that is not listed.
use bradyp_os.Base.{ℕ, zero, suc, Bool, true, false, none}
use bradyp_os.Base.Array.{Array}
use bradyp_os.Alarm.{Event, Alarm}
use bradyp_os.Kernel.{ThreadState, Tcb, Kernel}

abbrev pub idle_event : Event
idle_event = record { when = 0; kind = 0; payload = 0; prev = none; next = none }

abbrev pub quiet : Alarm
quiet = record { next_event = none; current_time = 0; events = λ i. idle_event }

abbrev pub zeros : Array
zeros i = 0

abbrev pub block : ℕ → ThreadState → Tcb
block gid s = record {
  global_id = gid;
  local_id = 0;
  state = s;
  ctx = record { sp = 0; ret = 0; r = zeros };
  space = none;
  utcb = 0;
  priority = 42;
  pager = 0;
  scheduler = 0;
  ipc_from = 0;
  next_sibling = none;
  prev_sibling = none;
}

abbrev pub blocks : ℕ → Tcb
blocks zero = block 0x100001 ThreadState.runnable
blocks (suc zero) = block 0x108001 ThreadState.runnable
blocks (suc (suc n)) = block 0x104001 ThreadState.inactive

abbrev pub two_blocks : ℕ → Bool
two_blocks zero = true
two_blocks (suc zero) = true
two_blocks (suc (suc n)) = false

abbrev pub identity : Array
identity i = i

abbrev pub ones : Array
ones i = 1

-- Thread 0 runs, and thread 1 waits in the heap.
abbrev pub sample : Kernel
sample = record {
  tcb_store = blocks;
  tcb_store_allocated = two_blocks;
  thread_count = 2;
  thread_list = identity;
  schedule = record { size = 1; items = ones };
  current_thread_idx = 0;
  schedule_target = none;
  pendsv = false;
  alarm = quiet;
  as_pool = λ i. record { ref_count = 0; utcb_page = 0; first_thread = none };
  as_allocated = λ i. false;
  memory = zeros;
  caller = 0;
  softirq_pending = false;
  kern_tcb = 0;
  root_tcb = 0;
}

-- The kernel's thread 0 and the thread 1, which called: their UTCBs start at 0x400 and 0x800, their
-- stacks at 0x100 and 0x200, and the register r7 of the caller holds the number of the call.
abbrev pub served_block : (number : ℕ) → ℕ → Tcb
served_block number zero = record (block 0x100001 ThreadState.runnable) {
  utcb = 0x400;
  ctx = record { sp = 0x100; ret = 0; r = zeros };
}
served_block number (suc zero) = record (block 0x108001 ThreadState.svc_blocked) {
  local_id = 0x800;
  utcb = 0x800;
  ctx = record { sp = 0x200; ret = 0; r = λ i. number };
}
served_block number (suc (suc n)) = block 0x104001 ThreadState.inactive

abbrev pub two_listed : Array
two_listed zero = 0
two_listed (suc zero) = 1
two_listed (suc (suc n)) = 0

abbrev pub serving : (number : ℕ) → (memory : Array) → Kernel
serving number memory = record sample {
  tcb_store = served_block number;
  thread_list = two_listed;
  schedule = record { size = 0; items = zeros };
  memory = memory;
  caller = 1;
  softirq_pending = true;
}
