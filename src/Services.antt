-- ===== src/Services.antt =====
-- usr/root/service.c: the registry of services of the root server. The message registers that a
-- handler reads are arguments, and the answer that it loads is a `Reply`. `global_id_of` is
-- L4_global_id_of of lib/l4/thread.c.
pub mod Lookup
pub mod Handlers
mod Examples
use bradyp_os.Base.{
  ℕ, zero, suc, ◌+◌, ◌*◌, ◌/◌, Bool, ◌&&◌, not, Option, none, some, leb, ◌==◌, if◌then◌else◌,
}
use bradyp_os.Base.Array.{Array}
use bradyp_os.Memory.Utcb
use bradyp_os.Ids.{nilthread, is_local_id}

-- `struct service_desc`
pub record ServiceDesc : Type 0 where
  pub thread : ℕ
  pub name : ℕ

abbrev pub max_service_count : ℕ
max_service_count = 16

-- The static variables.
pub record Registry : Type 0 where
  pub service_count : ℕ
  pub services : ℕ → ServiceDesc

-- The messages that the handlers answer with.
pub data Errno : Type 0 where
  einval enoent enomem : Errno

pub data Reply : Type 0 where
  serv_error : Errno → Reply
  serv_get_ret : ℕ → Reply
  serv_register_ret : Reply

-- The loop over `n` entries from `i` on; the result is the entry's index.
pub find_from : (n i : ℕ) → (ℕ → ServiceDesc) → ℕ → Option ℕ
find_from zero i services name = none
find_from (suc n) i services name =
    let rest = find_from n (i + 1) services name in
    if (services i).name == name then some i else rest

unfoldable pub find_service_desc : Registry → ℕ → Option ℕ
unfolding find_from
find_service_desc s name = find_from s.service_count 0 s.services name

unfoldable pub get_service : Registry → ℕ → ℕ
unfolding find_service_desc
get_service s name = elim (find_service_desc s name) [
  | none ↦ nilthread
  | some i ↦ (s.services i).thread
]

-- `services[service_count++] = d;`
unfoldable pub append : Registry → ServiceDesc → Registry
append s d = record {
  service_count = s.service_count + 1;
  services = λ i. if i == s.service_count then d else s.services i;
}

unfoldable pub register_service : Registry → (tid name : ℕ) → Registry
unfolding append
register_service s tid name =
    if leb max_service_count s.service_count
    then s
    else append s (record { thread = tid; name = name })

-- `memcpy` of the four bytes of a little-endian number.
unfoldable pub register_service_from_name : Registry → (tid : ℕ) → (name : Array) → Registry
unfolding register_service
register_service_from_name s tid name =
    register_service s tid (name 0 + 256 * (name 1 + 256 * (name 2 + 256 * name 3)))

-- `u` and `t` are the fields of the message tag.
unfoldable pub handle_service_get : Registry → (u t serv_name : ℕ) → Reply
unfolding find_service_desc
handle_service_get s u t serv_name =
    let answer : Reply = elim (find_service_desc s serv_name) [
      | none ↦ serv_error enoent
      | some i ↦ serv_get_ret (s.services i).thread
    ] in
    if not (u == 1 && t == 0) then serv_error einval else answer

-- A local identifier is the address of the thread's UTCB in the memory.
unfoldable pub global_id_of : Array → (tid : ℕ) → ℕ
global_id_of memory tid = memory (tid / 4 + Utcb.global_id)

module _ (memory : Array) where
  unfoldable pub sender : ℕ → ℕ
  unfolding is_local_id global_id_of
  sender from = if is_local_id from then global_id_of memory from else from

  unfoldable pub handle_service_register : Registry → (u t from serv_name : ℕ) → Reply × Registry
  unfolding append sender
  handle_service_register s u t from serv_name =
      if not (u == 1 && t == 0)
      then (serv_error einval, s)
      else if s.service_count == max_service_count
      then (serv_error enomem, s)
      else (serv_register_ret, append s (record { thread = sender from; name = serv_name }))
