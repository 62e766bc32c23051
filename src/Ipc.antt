-- ===== src/Ipc.antt =====
-- kern/syscall/ipc.c: the search for the partner of a message. `target` is the thread that calls
-- IPC. A `none` as a result of a search means that the loop follows a NULL pointer or does not end.
pub mod Partner
pub mod Reach
pub mod Table
pub mod Transfer
pub mod Waiting
pub mod Phases
pub mod Frames
pub mod Written
pub mod Delivery
pub mod Overflow
pub mod Rounds
pub mod Timeout
pub mod Serving
pub mod Whole
mod Examples
mod Messages
use bradyp_os.Base.{
  ℕ, zero, suc, ◌+◌, Bool, true, false, ◌&&◌, ◌||◌, Option, none, some, ◌==◌, if◌then◌else◌, ◌>>=◌,
}
use bradyp_os.Ids.{anythread, anylocalthread, same_threads, is_local_id}
use bradyp_os.Kernel.{ThreadState, Kernel, is_active, is_recv_blocked, is_send_blocked}
use bradyp_os.Thread.{find_thread_by_global_id, get_thread_by_index}

-- `enum ipc_partner_search_result`, with the thread that `tcb_out` is set to.
pub data Search : Type 0 where
  nonexistent : Search
  notready : Search
  found : ℕ → Search
  pager_msg : ℕ → Search

-- `a->as == b->as`
abbrev pub same_space : Option ℕ → Option ℕ → Bool
same_space none none = true
same_space none (some y) = false
same_space (some x) none = false
same_space (some x) (some y) = x == y

unfoldable pub is_viable_ipc_partner : Kernel → (target partner : ℕ) → Bool
is_viable_ipc_partner k target partner =
    let t = k.tcb_store target in
    let p = k.tcb_store partner in
    p.ipc_from == anythread
    || (p.ipc_from == anylocalthread && same_space p.space t.space)
    || p.ipc_from == t.global_id
    || p.ipc_from == t.local_id

-- Whether the thread's state is `target_state`: the partner of a sender waits to receive, and the
-- partner of a receiver to send.
abbrev pub awaits : (sending : Bool) → ThreadState → Bool
awaits true s = is_recv_blocked s
awaits false s = is_send_blocked s

-- `current_tcb->state == target_state && is_viable_ipc_partner(target, current_tcb)`
unfoldable pub is_ready : Kernel → (target : ℕ) → (sending : Bool) → ℕ → Bool
unfolding is_viable_ipc_partner
is_ready k target sending i =
    awaits sending (k.tcb_store i).state && is_viable_ipc_partner k target i

-- The loop over `n` entries of the thread list, from `i` on.
pub search_list : (n i : ℕ) → Kernel → ℕ → Bool → Search
search_list zero i k target sending = notready
search_list (suc n) i k target sending =
    let rest = search_list n (i + 1) k target sending in
    let current = get_thread_by_index k i in
    if is_ready k target sending current then found current else rest

unfoldable pub find_ipc_partner_any : Kernel → ℕ → Bool → Search
unfolding search_list is_ready get_thread_by_index
find_ipc_partner_any k target sending = search_list k.thread_count 0 k target sending

-- The loop over the threads of an address space; there are 16 threads, so a chain of siblings that
-- has no cycle ends within 17 rounds.
pub search_siblings : (fuel : ℕ) → Option ℕ → Kernel → ℕ → Bool → Option Search
search_siblings zero current k target sending = none
search_siblings (suc fuel) none k target sending = some notready
search_siblings (suc fuel) (some i) k target sending =
    let rest = search_siblings fuel (k.tcb_store i).next_sibling k target sending in
    if is_ready k target sending i then some (found i) else rest

abbrev pub sibling_limit : ℕ
sibling_limit = 17

-- `tcb->as->first_thread`; `none` where the address space is NULL.
unfoldable pub first_thread : Kernel → ℕ → Option (Option ℕ)
first_thread k target = elim (k.tcb_store target).space [
  | none ↦ none
  | some s ↦ some (k.as_pool s).first_thread
]

unfoldable pub find_ipc_partner_anylocal : Kernel → ℕ → Bool → Option Search
unfolding first_thread search_siblings is_ready
find_ipc_partner_anylocal k target sending =
    first_thread k target >>= λ first. search_siblings sibling_limit first k target sending

-- `local_thread->state == target_state && L4_same_threads(local_thread->local_id, who)`
unfoldable pub is_named : Kernel → (who : ℕ) → Bool → ℕ → Bool
unfolding same_threads
is_named k who sending i =
    awaits sending (k.tcb_store i).state && same_threads (k.tcb_store i).local_id who

-- The loop of `find_ipc_partner_local`: its body moves on to the next sibling, and then the loop
-- moves on again, from NULL as well.
pub search_named : (fuel : ℕ) → Option ℕ → Kernel → (target who : ℕ) → Bool → Option Search
search_named zero current k target who sending = none
search_named (suc fuel) none k target who sending = some nonexistent
search_named (suc fuel) (some i) k target who sending =
    let rest = (k.tcb_store i).next_sibling >>= λ j.
    search_named fuel (k.tcb_store j).next_sibling k target who sending in
    if is_named k who sending i
    then some (if is_viable_ipc_partner k target i then found i else notready)
    else rest

unfoldable pub find_ipc_partner_local : Kernel → (target who : ℕ) → Bool → Option Search
unfolding first_thread search_named is_named is_viable_ipc_partner
find_ipc_partner_local k target who sending =
    first_thread k target >>= λ first. search_named sibling_limit first k target who sending

-- `pager_tcb != NULL && pager_tcb->as == target->as`
abbrev pub shares_space : Kernel → ℕ → Option ℕ → Bool
shares_space k target none = false
shares_space k target (some p) = same_space (k.tcb_store p).space (k.tcb_store target).space

-- The last part of `find_ipc_partner`, for the thread with the global identifier.
unfoldable pub find_ipc_partner_global : Kernel → ℕ → Bool → Option ℕ → Search
unfolding is_ready find_thread_by_global_id
find_ipc_partner_global k target sending none = nonexistent
find_ipc_partner_global k target sending (some tcb) =
    let pager_tcb = find_thread_by_global_id k (k.tcb_store tcb).pager in
    if is_ready k target sending tcb
    then found tcb
    else if sending && is_active (k.tcb_store tcb).state && shares_space k target pager_tcb
    then pager_msg tcb
    else notready

unfoldable pub find_ipc_partner : Kernel → (target who : ℕ) → Bool → Option Search
unfolding find_ipc_partner_any find_ipc_partner_anylocal find_ipc_partner_local
    find_ipc_partner_global find_thread_by_global_id is_local_id
find_ipc_partner k target who sending =
    if who == anythread
    then some (find_ipc_partner_any k target sending)
    else if who == anylocalthread
    then find_ipc_partner_anylocal k target sending
    else if is_local_id who
    then find_ipc_partner_local k target who sending
    else some (find_ipc_partner_global k target sending (find_thread_by_global_id k who))
