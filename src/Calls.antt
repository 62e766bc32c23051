-- ===== src/Calls.antt =====
-- kern/syscall.c, kern/syscall/*.c and kern/softirq.c: the system calls. `none` means that the kernel
-- panics or follows a NULL pointer. The numbers of the calls are those of include/l4/syscalls.h.
pub mod Threads
pub mod Spaces
pub mod Schedule
pub mod Dispatch
pub mod Serving
pub mod Deferred
pub mod Placement
pub mod Answers
mod Examples
use bradyp_os.Base.{ℕ}
use bradyp_os.Kernel.{ThreadState, Kernel}
use bradyp_os.Memory.Utcb
use bradyp_os.Memory.{save_utcb, save_stack, stack_r0}
use bradyp_os.Scheduler.{set_thread_state}

-- `enum L4_error_code`
abbrev pub error_no_privilege : ℕ
error_no_privilege = 1

abbrev pub error_invalid_thread : ℕ
error_invalid_thread = 2

abbrev pub error_invalid_space : ℕ
error_invalid_space = 3

abbrev pub error_invalid_scheduler : ℕ
error_invalid_scheduler = 4

abbrev pub error_invalid_parameter : ℕ
error_invalid_parameter = 5

abbrev pub error_utcb_area : ℕ
error_utcb_area = 6

abbrev pub error_kip_area : ℕ
error_kip_area = 7

-- `sp[THREAD_CTX_STACK_R0] = 0; caller->utcb->error = error;`, `sp` being the caller's stack.
unfoldable pub reject : Kernel → (error : ℕ) → Kernel
unfolding save_stack save_utcb
reject k error = save_utcb (save_stack k k.caller stack_r0 0) k.caller Utcb.error error

unfoldable pub unblock_caller : Kernel → Kernel
unfolding set_thread_state
unblock_caller k = set_thread_state k k.caller ThreadState.runnable
