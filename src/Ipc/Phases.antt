-- ===== src/Ipc/Phases.antt =====
-- kern/syscall/ipc.c: the send and receive phases of IPC and its timeouts. `none` means that the
-- kernel panics, follows a NULL pointer, or does not end.
use mathlib.Core.Option
use bradyp_os.Base.{
  ℕ, zero, suc, ◌+◌, ◌-◌, ◌*◌, ◌%◌, ◌^◌, Bool, true, false, not, ◌&&◌, Option, none, some, ◌==◌,
  if◌then◌else◌, ◌>>=◌, bit,
}
use bradyp_os.Ids.{is_nil_thread}
use bradyp_os.Kernel.{
  ThreadState, Kernel, put_tcb, is_recv_blocked, is_send_blocked, thread_max_count,
}
use bradyp_os.Memory.Utcb
use bradyp_os.Memory.Tag
use bradyp_os.Memory.{
  load_utcb, save_utcb, load_stack, save_stack, add_error_flag, stack_r0, stack_r1, stack_r2,
  stack_pc, stack_psr, stack_word_count, ipc_error, ipc_error_timeout,
  ipc_error_nonexistent_partner, ipc_error_message_overflow, ipc_error_aborted,
}
use bradyp_os.Thread.{find_thread_by_global_id}
use bradyp_os.Scheduler.{set_thread_state}
use bradyp_os.Ipc.{Search, find_ipc_partner}
use bradyp_os.Ipc.Transfer.{copy_payload}
use bradyp_os.Ipc.Waiting.{send_timeout, recv_timeout, set_thread_timeout}

-- `EXCEPTION_RETURN_TO_THREAD_ON_PROCESS_STACK` of kern/include/kern/interrupts.h
abbrev pub exception_return : ℕ
exception_return = 0xFFFFFFFD

unfoldable pub pager_start_thread : Kernel → (pager target : ℕ) → Kernel
unfolding load_utcb save_stack put_tcb set_thread_state
pager_start_thread k pager target =
    let sp = (load_utcb k pager (Utcb.mr 2) + 2 ^ 32 - stack_word_count * 4) % 2 ^ 32 in
    let tcb = k.tcb_store target in
    let k1 =
      put_tcb k target
        (record tcb { ctx = record (tcb.ctx) { sp = sp; ret = exception_return } }) in
    let k2 = save_stack k1 target stack_pc (load_utcb k1 pager (Utcb.mr 1)) in
    let k3 = save_stack k2 target stack_psr (2 ^ 24) in
    set_thread_state k3 target ThreadState.runnable

unfoldable pub set_ipc_error : Kernel → (t : ℕ) → Kernel
unfolding save_utcb load_utcb add_error_flag
set_ipc_error k t = save_utcb k t (Utcb.mr 0) (add_error_flag (load_utcb k t (Utcb.mr 0)))

-- `utcb->error = ...` of a thread.
unfoldable pub set_error : Kernel → (t p err : ℕ) → Kernel
unfolding save_utcb
set_error k t p err = save_utcb k t Utcb.error (ipc_error p err)

pub data Phase : Type 0 where
  done error wait : Phase

-- What `ipc_send` does with a partner that waits to receive.
unfoldable pub send_found : Kernel → (target to : ℕ) → Option (Phase × Kernel)
unfolding copy_payload set_error set_ipc_error set_thread_state
send_found k target to = copy_payload k target to >>= λ r.
    let k1 = r.1 in
    let failed =
      set_ipc_error (set_ipc_error (set_error (set_error k1 target 0 r.0) to 1 r.0) target) to in
    if r.0 == 0
    then some (done, set_thread_state k1 to ThreadState.runnable)
    else some (error, set_thread_state failed to ThreadState.runnable)

-- `tag.flags == 0 && tag.label == 0 && tag.t == 0 && tag.u == 2`
unfoldable pub is_start_message : ℕ → Bool
is_start_message tag =
    Tag.flags tag == 0
    && Tag.label tag == 0
    && Tag.typed_words tag == 0
    && Tag.untyped_words tag == 2

-- A message from a pager to a thread of its that has not started.
unfoldable pub send_to_active : Kernel → (target to : ℕ) → Option (Phase × Kernel)
unfolding copy_payload set_error set_ipc_error pager_start_thread is_start_message load_utcb
send_to_active k target to =
    let sent = copy_payload k target to >>= λ r.
    if r.0 == 0
    then some (done, r.1)
    else some (error, set_ipc_error (set_error r.1 target 0 r.0) target) in
    if is_start_message (load_utcb k target (Utcb.mr 0))
    then some (done, pager_start_thread k target to)
    else sent

-- The partner is not ready: the thread waits, or gives up.
unfoldable pub block :
    Kernel → (target partner p timeout : ℕ) → ThreadState → Option (Phase × Kernel)
unfolding set_thread_timeout set_error put_tcb
block k target partner p timeout state = set_thread_timeout k target timeout state >>= λ r.
    let k1 = r.1 in
    if r.0
    then some (wait, put_tcb k1 target (record (k1.tcb_store target) { ipc_from = partner }))
    else some (error, set_error k1 target p ipc_error_aborted)

-- The branches of `ipc_send` by the result of the search.
unfoldable pub send_to : Search → Kernel → (target to timeout : ℕ) → Option (Phase × Kernel)
unfolding send_found send_to_active block set_error
send_to (Search.found t) k target to timeout = send_found k target t
send_to (Search.pager_msg t) k target to timeout = send_to_active k target t
send_to Search.nonexistent k target to timeout =
    some (error, set_error k target 0 ipc_error_nonexistent_partner)
send_to Search.notready k target to timeout = block k target to 0 timeout ThreadState.send_blocked

unfoldable pub ipc_send : Kernel → (target to timeout : ℕ) → Option (Phase × Kernel)
unfolding send_to find_ipc_partner is_nil_thread
ipc_send k target to timeout =
    let sent = find_ipc_partner k target to true >>= λ s. send_to s k target to timeout in
    if is_nil_thread to then some (done, k) else sent

-- The partner that waits to send: its message is copied, and its own receive phase follows, which is
-- the call `again`.
unfoldable pub recv_found :
    (again : Kernel → ℕ → Option Kernel) → Kernel → (target from : ℕ) → Option (Phase × Kernel)
unfolding copy_payload set_error set_ipc_error set_thread_state
recv_found again k target from = copy_payload k from target >>= λ r.
    let k1 = r.1 in
    let k2 =
      set_error (set_error k1 target 1 ipc_error_message_overflow) from 0
        ipc_error_message_overflow in
    let failed = set_ipc_error (set_ipc_error k2 target) from in
    if r.0 == 0
    then Option.map (λ k3. (done, k3)) (again k1 from)
    else some (error, set_thread_state failed from ThreadState.runnable)

unfoldable pub recv_from :
    (again : Kernel → ℕ → Option Kernel)
    → Search
    → Kernel
    → (target from timeout : ℕ) → Option (Phase × Kernel)
unfolding recv_found block set_error
recv_from again (Search.found f) k target from timeout = recv_found again k target f
recv_from again Search.nonexistent k target from timeout =
    some (error, set_error k target 1 ipc_error_nonexistent_partner)
recv_from again Search.notready k target from timeout =
    block k target from 1 timeout ThreadState.recv_blocked
recv_from again (Search.pager_msg f) k target from timeout = none

unfoldable pub ipc_recv :
    (again : Kernel → ℕ → Option Kernel)
    → Kernel
    → (target from timeout : ℕ) → Option (Phase × Kernel)
unfolding recv_from find_ipc_partner is_nil_thread
ipc_recv again k target from timeout =
    let received =
      find_ipc_partner k target from false >>= λ s. recv_from again s k target from timeout in
    if is_nil_thread from then some (done, k) else received

-- What `do_ipc` does with the result of the receive phase, and with one of the send phase that ends
-- the call.
unfoldable pub conclude : ThreadState → (target : ℕ) → Phase × Kernel → Kernel
unfolding set_ipc_error set_thread_state
conclude waiting target (done, k) = set_thread_state k target ThreadState.runnable
conclude waiting target (error, k) =
    set_thread_state (set_ipc_error k target) target ThreadState.runnable
conclude waiting target (wait, k) = set_thread_state k target waiting

unfoldable pub after_send :
    (again : Kernel → ℕ → Option Kernel)
    → (target from timeout : ℕ) → Phase × Kernel
    → Option Kernel
unfolding conclude ipc_recv
after_send again target from timeout (done, k) =
    ipc_recv again k target from (recv_timeout timeout) >>= λ r.
    some (conclude ThreadState.recv_blocked target r)
after_send again target from timeout (error, k) =
    some (conclude ThreadState.send_blocked target (error, k))
after_send again target from timeout (wait, k) =
    some (conclude ThreadState.send_blocked target (wait, k))

-- `do_ipc` calls itself for the receive phase of a thread that sent.
unfoldable pub do_ipc : (fuel : ℕ) → Kernel → (target : ℕ) → (skip_sending : Bool) → Option Kernel
do_ipc zero k target skip_sending = none
do_ipc (suc fuel) k target skip_sending =
    let timeout = load_stack k target stack_r2 in
    let to = load_stack k target stack_r0 in
    let from = load_stack k target stack_r1 in
    let again = λ (k1 : Kernel) (t : ℕ). do_ipc fuel k1 t true in
    let sent =
      if skip_sending then some (done, k) else ipc_send k target to (send_timeout timeout) in
    sent >>= after_send again target from timeout

unfoldable pub syscall_ipc : Kernel → Option Kernel
unfolding do_ipc
syscall_ipc k = do_ipc (suc thread_max_count) k k.caller false

-- The part of `do_ipc_timeout` for the thread that it found.
unfoldable pub time_out : Kernel → (t : ℕ) → Kernel
unfolding save_utcb set_ipc_error set_thread_state
time_out k t =
    let state = (k.tcb_store t).state in
    let k1 = set_ipc_error k t in
    let k2 =
      save_utcb k1 t Utcb.error (ipc_error (bit (is_recv_blocked state)) ipc_error_timeout) in
    if not (is_recv_blocked state) && not (is_send_blocked state)
    then k
    else set_thread_state k2 t ThreadState.runnable

unfoldable pub do_ipc_timeout : Kernel → (payload : ℕ) → Kernel
unfolding find_thread_by_global_id time_out
do_ipc_timeout k target = elim (find_thread_by_global_id k target) [
  | none ↦ k
  | some t ↦ time_out k t
]
