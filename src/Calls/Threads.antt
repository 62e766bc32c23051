-- ===== src/Calls/Threads.antt =====
-- kern/syscall/thread_control.c
use bradyp_os.Base.{
  ℕ, ◌-◌, ◌^◌, Bool, true, false, not, ◌&&◌, Option, none, some, ltb, ◌==◌, if◌then◌else◌, ◌>>=◌,
}
use bradyp_os.Ids.{nilthread, thread_no, same_threads, is_nil_thread, user_thread_start}
use bradyp_os.Kernel.{ThreadState, Kernel, Tcb, put_tcb}
use bradyp_os.Memory.{
  load_stack, save, fpage_contains_object, write_utcb, stack_r0, stack_r1, stack_r2, stack_r3,
  ctx_r4,
}
use bradyp_os.Thread.{find_thread_by_global_id, create_thread}
use bradyp_os.Scheduler.{delete_thread}
use bradyp_os.Calls.{
  reject, unblock_caller, error_no_privilege, error_invalid_space, error_invalid_scheduler,
  error_utcb_area, error_kip_area,
}

-- The arguments of the call, which the stack and the register r4 of the caller hold.
pub record ThreadControl : Type 0 where
  pub sp : ℕ
  pub dest : ℕ
  pub space_specifier : ℕ
  pub scheduler : ℕ
  pub pager : ℕ
  pub utcb_location : ℕ

-- The size of a UTCB that the checks go by.
abbrev pub utcb_area_size : ℕ
utcb_area_size = 160

-- `sp` is read before the caller may be deleted.
unfoldable pub syscall_thread_control_delete :
    Kernel → ThreadControl → (dest_tcb : ℕ) → Option Kernel
unfolding delete_thread save unblock_caller
syscall_thread_control_delete k c dest_tcb =
    let deleted = delete_thread k dest_tcb >>= λ k1.
    let k2 = save k1 c.sp stack_r0 1 in
    some (if dest_tcb == k.caller then k2 else unblock_caller k2) in
    if dest_tcb == k.root_tcb then none else deleted

-- A scheduler that is not nil exists.
abbrev pub is_present : Option ℕ → Bool
is_present none = false
is_present (some t) = true

unfoldable pub is_missing_scheduler : Kernel → ℕ → Bool
unfolding find_thread_by_global_id is_nil_thread
is_missing_scheduler k scheduler =
    not (is_nil_thread scheduler) && not (is_present (find_thread_by_global_id k scheduler))

-- The changes to the control block, once all checks have passed; `-1` keeps the UTCB.
unfoldable pub modified : Tcb → ThreadControl → (space : Option ℕ) → Tcb
unfolding same_threads is_nil_thread
modified tcb c space = record tcb {
  global_id = c.dest;
  space = space;
  scheduler = if is_nil_thread c.scheduler then tcb.scheduler else c.scheduler;
  pager = if same_threads c.pager nilthread then tcb.pager else c.pager;
  utcb = if c.utcb_location == 2 ^ 32 - 1 then tcb.utcb else c.utcb_location;
}

-- The part behind the checks of the space and of the scheduler; a thread with no address space makes
-- the kernel follow a NULL pointer.
unfoldable pub modify_in :
    Kernel → ThreadControl → (dest_tcb : ℕ) → (space : Option ℕ) → Option Kernel
unfolding reject put_tcb write_utcb save modified fpage_contains_object
modify_in k c dest_tcb none = none
modify_in k c dest_tcb (some s) =
    let k1 = put_tcb k dest_tcb (modified (k.tcb_store dest_tcb) c (some s)) in
    let k2 = save (write_utcb k1 dest_tcb) c.sp stack_r0 1 in
    fpage_contains_object (k.as_pool s).utcb_page c.utcb_location utcb_area_size >>= λ inside.
    some (if not inside then reject k error_utcb_area else k2)

unfoldable pub syscall_thread_control_modify :
    Kernel → ThreadControl → (dest_tcb : ℕ) → Option Kernel
unfolding find_thread_by_global_id is_missing_scheduler modify_in reject
syscall_thread_control_modify k c dest_tcb = elim (find_thread_by_global_id k c.space_specifier) [
  | none ↦ some (reject k error_invalid_space)
  | some t ↦
      if is_missing_scheduler k c.scheduler
      then some (reject k error_invalid_scheduler)
      else modify_in k c dest_tcb (k.tcb_store t).space
]

-- The state of a new thread.
abbrev pub initial_state : (inactive : Bool) → ThreadState
initial_state true = ThreadState.inactive
initial_state false = ThreadState.active

-- The new thread's block; a thread that `create_thread` does not return is NULL.
unfoldable pub init_tcb :
    Kernel → ThreadControl → (tcb : ℕ) → (space_control_tcb : Option ℕ) → Kernel
unfolding put_tcb is_nil_thread
init_tcb k c tcb none = put_tcb k tcb (record (k.tcb_store tcb) {
  global_id = c.dest;
  local_id = c.utcb_location;
  utcb = c.utcb_location;
  state = ThreadState.inactive;
  pager = c.pager;
  scheduler = c.scheduler;
})
init_tcb k c tcb (some s) =
    let k1 = put_tcb k tcb (record (k.tcb_store tcb) {
      global_id = c.dest;
      local_id = c.utcb_location;
      utcb = c.utcb_location;
      state = initial_state (is_nil_thread c.pager);
      space = (k.tcb_store s).space;
      next_sibling = (k.tcb_store s).next_sibling;
      prev_sibling = some s;
    }) in
    let k2 = put_tcb k1 s (record (k1.tcb_store s) { next_sibling = some tcb }) in
    put_tcb k2 tcb (record (k2.tcb_store tcb) { pager = c.pager; scheduler = c.scheduler })

unfoldable pub create_in : Kernel → ThreadControl → (space_control_tcb : Option ℕ) → Option Kernel
unfolding create_thread init_tcb save
create_in k c space_control_tcb = create_thread k c.dest >>= λ r. elim r.0 [
  | none ↦ none
  | some tcb ↦ some (save (init_tcb r.1 c tcb space_control_tcb) c.sp stack_r0 1)
]

-- The checks for the thread whose address space the new one is to join.
unfoldable pub create_beside :
    Kernel → ThreadControl → (space_control_tcb : ℕ) → (space : Option ℕ) → Option Kernel
unfolding reject is_missing_scheduler create_in fpage_contains_object
create_beside k c space_control_tcb none = some (reject k error_invalid_space)
create_beside k c space_control_tcb (some s) =
    if is_missing_scheduler k c.scheduler
    then some (reject k error_invalid_scheduler)
    else fpage_contains_object (k.as_pool s).utcb_page c.utcb_location utcb_area_size >>= λ inside.
        if not inside
        then some (reject k error_kip_area)
        else create_in k c (some space_control_tcb)

unfoldable pub syscall_thread_control_create : Kernel → ThreadControl → Option Kernel
unfolding find_thread_by_global_id same_threads create_beside reject is_missing_scheduler create_in
syscall_thread_control_create k c = elim (find_thread_by_global_id k c.space_specifier) [
  | none ↦
      if not (same_threads c.dest c.space_specifier)
      then some (reject k error_invalid_space)
      else if is_missing_scheduler k c.scheduler
      then some (reject k error_invalid_scheduler)
      else create_in k c none
  | some t ↦ create_beside k c t (k.tcb_store t).space
]

unfoldable pub arguments : Kernel → ThreadControl
unfolding load_stack
arguments k = record {
  sp = (k.tcb_store k.caller).ctx.sp;
  dest = load_stack k k.caller stack_r0;
  space_specifier = load_stack k k.caller stack_r1;
  scheduler = load_stack k k.caller stack_r2;
  pager = load_stack k k.caller stack_r3;
  utcb_location = (k.tcb_store k.caller).ctx.r ctx_r4;
}

-- The branches on whether `dest` exists and `space_specifier` is nil.
unfoldable pub control_thread : Kernel → ThreadControl → (dest_tcb : Option ℕ) → Option Kernel
unfolding same_threads reject unblock_caller syscall_thread_control_delete
    syscall_thread_control_modify syscall_thread_control_create
control_thread k c (some t) =
    if same_threads c.space_specifier nilthread
    then syscall_thread_control_delete k c t
    else (syscall_thread_control_modify k c t >>= λ k1. some (unblock_caller k1))
control_thread k c none =
    if same_threads c.space_specifier nilthread
    then some (unblock_caller (reject k error_invalid_space))
    else (syscall_thread_control_create k c >>= λ k1. some (unblock_caller k1))

unfoldable pub syscall_thread_control : Kernel → Option Kernel
unfolding arguments control_thread is_nil_thread thread_no find_thread_by_global_id reject
syscall_thread_control k =
    let c = arguments k in
    if not (is_nil_thread c.dest) && ltb (thread_no c.dest) user_thread_start
    then some (reject k error_no_privilege)
    else control_thread k c (find_thread_by_global_id k c.dest)
