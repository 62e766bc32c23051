-- ===== src/Spaces.antt =====
-- kern/memory.c: address spaces, and the handler of a fault in a thread. `none` is a panic, or that
-- a NULL pointer is followed; the dump of the registers before the panic is not modelled.
pub mod Creation
pub mod Fault
mod Examples
use bradyp_os.Base.{
  ℕ, zero, suc, ◌+◌, Bool, true, false, Option, none, some, ltb, ◌==◌, if◌then◌else◌, ◌>>=◌,
}
use bradyp_os.Ids.{thread_no, user_thread_start}
use bradyp_os.Kernel.{Space, Kernel, set_bit}
use bradyp_os.Scheduler.{delete_thread, request_reschedule, get_current_thread}

abbrev pub max_address_spaces : ℕ
max_address_spaces = 16

-- The loop of `alloc_as` from space `i` on, with `n` spaces left.
unfoldable pub alloc_from : (n i : ℕ) → Kernel → ℕ × Kernel
alloc_from zero i k = (i, k)
alloc_from (suc n) i k =
    let rest = alloc_from n (i + 1) k in
    if k.as_allocated i
    then rest
    else (i, record k { as_allocated = set_bit k.as_allocated i true })

unfoldable pub alloc_as : Kernel → ℕ × Kernel
unfolding alloc_from
alloc_as k = alloc_from max_address_spaces 0 k

abbrev pub nilpage : ℕ
nilpage = 0

unfoldable pub create_as : Kernel → (owner : ℕ) → Option (ℕ × Kernel)
unfolding alloc_as
create_as k owner =
    let (i, k1) = alloc_as k in
    let space : Space = record { ref_count = 1; utcb_page = nilpage; first_thread = some owner } in
    if i == max_address_spaces
    then none
    else some (i, record k1 { as_pool = λ j. if j == i then space else k1.as_pool j })

-- `__isr_hardfault`; the argument is the bit of `lr` that says that a thread ran.
unfoldable pub isr_hardfault : Kernel → (fault_in_thread_mode : Bool) → Option Kernel
unfolding delete_thread request_reschedule get_current_thread thread_no
isr_hardfault k false = none
isr_hardfault k true = do
  t ← get_current_thread k
  let number = thread_no (k.tcb_store t).global_id
  let killed = delete_thread k t >>= λ k1. some (request_reschedule k1 none)
  if ltb number user_thread_start
      then none
      else if number == user_thread_start
      then none
      else killed
