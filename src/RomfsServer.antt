-- ===== src/RomfsServer.antt =====
-- usr/root/romfs_server.c: the server of files of a ROM file system, with a hash table of open files.
-- An identifier of a file or a thread is a 32-bit word.
pub mod Handlers
pub mod Table
pub mod Deletion
pub mod Insertion
pub mod Stays
pub mod Isolation
pub mod Requests
pub mod Steps
pub mod Clients
pub mod Bounds
mod Examples
use Prim.Native.Nat.{bit_xor}
use bradyp_os.Base.{
  ℕ, zero, suc, ◌+◌, ◌*◌, ◌/◌, ◌%◌, ◌^◌, Bool, true, false, not, ◌&&◌, ◌||◌, Option, none, some,
  ◌==◌, if◌then◌else◌,
}
use bradyp_os.Romfs.{FileInfo}

-- `enum hash_item_status`
pub data Status : Type 0 where
  free used tombstone : Status

abbrev pub is_free : Status → Bool
is_free free = true
is_free s = false

abbrev pub is_used : Status → Bool
is_used used = true
is_used s = false

abbrev pub is_tombstone : Status → Bool
is_tombstone tombstone = true
is_tombstone s = false

-- `struct vfs_file_state`
pub record FileState : Type 0 where
  pub status : Status
  pub owner : ℕ
  pub fd : ℕ
  pub file_info : FileInfo
  pub file_off : ℕ

-- `file_states`, of which the first `file_state_count` are entries.
abbrev pub Files : Type 0
Files = ℕ → FileState

abbrev pub file_state_log : ℕ
file_state_log = 5

abbrev pub file_state_count : ℕ
file_state_count = 2 ^ 5

abbrev pub put : Files → (i : ℕ) → FileState → Files
put files i f = λ j. if j == i then f else files j

-- `a ^= b + 0x9e3779b9 + (a << 6) + (a >> 2);` on 32 bits
unfoldable pub hash_combine : (a b : ℕ) → ℕ
hash_combine a b = bit_xor a ((b + 0x9e3779b9 + a * 2 ^ 6 % 2 ^ 32 + a / 4) % 2 ^ 32)

-- `idx` in the round `i`
unfoldable pub probe : (owner fd i : ℕ) → ℕ
probe owner fd i = (hash_combine owner fd % file_state_count + i * i) % file_state_count

module _ (files : Files) (owner fd : ℕ) where
  -- The loops, with `n` rounds left and the round `i` to come.
  unfoldable pub insertion_from : (n i : ℕ) → Option ℕ
  insertion_from zero i = none
  insertion_from (suc n) i =
      let idx = probe owner fd i in
      let rest = insertion_from n (i + 1) in
      if is_free (files idx).status || is_tombstone (files idx).status
      then some idx
      else if is_used (files idx).status && (files idx).owner == owner && (files idx).fd == fd
      then some idx
      else rest

  unfoldable pub find_from : (n i : ℕ) → Option ℕ
  find_from zero i = none
  find_from (suc n) i =
      let idx = probe owner fd i in
      let rest = find_from n (i + 1) in
      if is_free (files idx).status
      then none
      else if is_tombstone (files idx).status
          || not ((files idx).owner == owner)
          || not ((files idx).fd == fd)
      then rest
      else some idx

  unfoldable pub delete_from : (n i : ℕ) → Files × Bool
  delete_from zero i = (files, false)
  delete_from (suc n) i =
      let idx = probe owner fd i in
      let rest = delete_from n (i + 1) in
      if is_free (files idx).status
      then (files, false)
      else if is_tombstone (files idx).status
          || not ((files idx).owner == owner)
          || not ((files idx).fd == fd)
      then rest
      else (put files idx (record (files idx) { status = tombstone }), true)

  unfoldable pub find_vfs_file_state_insertion_point : Option ℕ
  find_vfs_file_state_insertion_point = insertion_from file_state_log 0

  unfoldable pub find_vfs_file_state : Option ℕ
  find_vfs_file_state = find_from file_state_log 0

  unfoldable pub delete_vfs_file_state : Files × Bool
  delete_vfs_file_state = delete_from file_state_log 0
