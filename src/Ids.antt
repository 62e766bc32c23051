-- ===== src/Ids.antt =====
-- include/l4/thread.h: thread identifiers. `x & ((1 << k) - 1)` is written `x % 2 ^ k`, and `x >> k`
-- is `x / 2 ^ k`; an `L4_thread_id` is a 32-bit number.
pub mod Fields
mod Examples
use Prim.Native.Nat.{bit_or}
use bradyp_os.Base.{ℕ, ◌*◌, ◌/◌, ◌%◌, ◌^◌, Bool, not, ◌==◌}

abbrev pub nilthread : ℕ
nilthread = 0

abbrev pub anythread : ℕ
anythread = 0xFFFFFFFF

abbrev pub anylocalthread : ℕ
anylocalthread = 0xFFFFFFB0

abbrev pub system_thread_start : ℕ
system_thread_start = 0x30

abbrev pub user_thread_start : ℕ
user_thread_start = 0x40

unfoldable pub global_id : ℕ → ℕ → ℕ
global_id number version = bit_or (number * 2 ^ 14 % 2 ^ 32) version

unfoldable pub version : ℕ → ℕ
version tid = tid % 2 ^ 15

unfoldable pub thread_no : ℕ → ℕ
thread_no tid = tid / 2 ^ 14

unfoldable pub same_threads : ℕ → ℕ → Bool
unfolding thread_no
same_threads lhs rhs = thread_no lhs == thread_no rhs

unfoldable pub is_nil_thread : ℕ → Bool
is_nil_thread tid = tid == nilthread

unfoldable pub is_local_id : ℕ → Bool
is_local_id tid = tid % 2 ^ 7 == 0

unfoldable pub is_global_id : ℕ → Bool
is_global_id tid = not (tid % 2 ^ 7 == 0)
