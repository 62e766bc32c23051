-- ===== src/Calls/Spaces.antt =====
-- kern/syscall/space_control.c and kern/syscall/unmap.c. `kip_fpage` is the flexpage of the kernel
-- interface page, which `init_memory` computes from an address that the linker chooses.
use bradyp_os.Base.{ℕ, not, ◌&&◌, Option, none, some, ◌==◌, if◌then◌else◌, ◌>>=◌}
use bradyp_os.Ids.{is_nil_thread}
use bradyp_os.Kernel.{ThreadState, Kernel, put_tcb}
use bradyp_os.Memory.{
  load_stack, save_stack, fpage_contains_object, write_utcb, stack_r0, stack_r1, stack_r2, stack_r3,
}
use bradyp_os.Thread.{find_thread_by_global_id}
use bradyp_os.Scheduler.{set_thread_state}
use bradyp_os.Spaces.{create_as, nilpage}
use bradyp_os.Calls.{reject, unblock_caller, error_invalid_space, error_utcb_area, error_kip_area}
use bradyp_os.Calls.Threads.{utcb_area_size}

-- `as_pool[s].utcb_page = page`
unfoldable pub put_utcb_page : Kernel → (s page : ℕ) → Kernel
put_utcb_page k s page = record k {
  as_pool = λ j. if j == s then record (k.as_pool j) { utcb_page = page } else k.as_pool j;
}

-- The thread's address space, which is created where it has none.
unfoldable pub space_of : Kernel → (t : ℕ) → (space : Option ℕ) → Option (ℕ × Kernel)
unfolding create_as put_tcb put_utcb_page
space_of k t (some s) = some (s, k)
space_of k t none = create_as k t >>= λ r.
    let s = r.0 in
    let tcb = (r.1).tcb_store t in
    let k1 = put_tcb r.1 t (record tcb { next_sibling = none; prev_sibling = none }) in
    let k2 = put_utcb_page k1 s nilpage in
    some (s, put_tcb k2 t (record (k2.tcb_store t) { space = some s }))

-- The test of the space's page and its new value; the error that is reported does not end the call.
unfoldable pub place_utcb_page : Kernel → (s utcb_area : ℕ) → Kernel
unfolding reject put_utcb_page
place_utcb_page k s utcb_area =
    put_utcb_page (if not ((k.as_pool s).utcb_page == 0) then reject k error_utcb_area else k) s
      utcb_area

-- A thread whose UTCB lies in the page and that has a pager is made active.
unfoldable pub activate : Kernel → (t kip_area utcb_area : ℕ) → Option Kernel
unfolding fpage_contains_object is_nil_thread write_utcb set_thread_state
activate k t kip_area utcb_area =
    let started = set_thread_state (write_utcb k t) t ThreadState.active in
    let tested = fpage_contains_object utcb_area (k.tcb_store t).utcb utcb_area_size >>= λ inside.
    some (if inside && not (is_nil_thread (k.tcb_store t).pager) then started else k) in
    if not (kip_area == 0) && not (utcb_area == 0) then tested else some k

-- `sp[THREAD_CTX_STACK_R0] = 1; sp[THREAD_CTX_STACK_R1] = 0;`
unfoldable pub accept : Kernel → Kernel
unfolding save_stack
accept k = save_stack (save_stack k k.caller stack_r0 1) k.caller stack_r1 0

unfoldable pub set_utcb_area : Kernel → (t s kip_area utcb_area : ℕ) → Option Kernel
unfolding place_utcb_page activate accept
set_utcb_area k t s kip_area utcb_area =
    activate (place_utcb_page k s utcb_area) t kip_area utcb_area >>= λ k1. some (accept k1)

module _ (kip_fpage : ℕ) where
  unfoldable pub control_space :
      Kernel → (target : Option ℕ) → (kip_area utcb_area : ℕ) → Option Kernel
  unfolding reject space_of set_utcb_area
  control_space k none kip_area utcb_area = some (reject k error_invalid_space)
  control_space k (some t) kip_area utcb_area =
      let placed =
        space_of k t (k.tcb_store t).space >>= λ r. set_utcb_area r.1 t r.0 kip_area utcb_area in
      if not (kip_area == kip_fpage) then some (reject k error_kip_area) else placed

  unfoldable pub syscall_space_control : Kernel → Option Kernel
  unfolding control_space find_thread_by_global_id load_stack
  syscall_space_control k =
      let specifier = load_stack k k.caller stack_r0 in
      control_space k (find_thread_by_global_id k specifier) (load_stack k k.caller stack_r2)
        (load_stack k k.caller stack_r3)

unfoldable pub syscall_unmap : Kernel → Kernel
unfolding unblock_caller
syscall_unmap k = unblock_caller k
