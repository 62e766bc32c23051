-- ===== src/RomfsServer/Examples.antt =====
-- The server on a volume with a directory at 32 and a file `a` of 5 bytes at 64, and two clients.
use bradyp_os.Base.{
  ℕ, ◌+◌, ◌*◌, ◌^◌, ◌≤◌, ◌<◌, ◌≡◌, ◌⊎◌, true, false, refl, none, some, List, [], ◌∷◌, ◌==◌,
  if◌then◌else◌, arith,
}
use bradyp_os.Base.Array.{Array}
use bradyp_os.Romfs.{FileInfo, romfs_file_info, romfs_openat, find_file, romfs_next_file, strcmp}
use bradyp_os.RomfsServer.{
  free, tombstone, FileState, Files, put, probe, hash_combine, find_vfs_file_state,
  find_vfs_file_state_insertion_point, find_from, insertion_from,
}
use bradyp_os.RomfsServer.Table.{IsFile, IsReachable, find_vfs_file_state-IsFile}
use bradyp_os.RomfsServer.Steps.{opened, handle_request-IsReachable, handle_request-opened}
use bradyp_os.RomfsServer.Clients.{handle_vfs_openat-opened}
use bradyp_os.RomfsServer.Bounds.{handle_vfs_read_bounds}
use bradyp_os.Fpage
use bradyp_os.RomfsServer.Handlers.{
  openroot_ret, openat_ret, read_ret, map_ret, Message, terminate, open_file, romfs_map,
  handle_vfs_openroot, handle_vfs_openat, handle_vfs_read, handle_vfs_map, handle_request,
}

abbrev memory : Array
memory i =
    if i == 0x1023
    then 9
    else if i == 0x1027
    then 64
    else if i == 0x1043
    then 2
    else if i == 0x104b
    then 5
    else if i == 0x1050
    then b'a'
    else 0

abbrev closed : FileState
closed = record {
  status = free;
  owner = 0;
  fd = 0;
  file_info = record { type = 0; executable = false; info = 0; size = 0; name = [] };
  file_off = 0;
}

abbrev fresh : Files
fresh i = closed

abbrev client : ℕ
client = 0x14001

abbrev root_fd : ℕ
root_fd = 3

abbrev word : (a b c : ℕ) → Array
word a b c i = if i == 1 then a else if i == 2 then b else if i == 3 then c else 0

abbrev open_root : Message
open_root = record { label = 0; u = 1; t = 0; mrs = word root_fd 0 0; buffer = [] }

-- The received name has one character.
abbrev open_a : Message
open_a = record {
  label = 1;
  u = 2;
  t = 2;
  mrs = word root_fd 4 (1024 * 1);
  buffer = b'a' ∷ 9 ∷ 9 ∷ [];
}

abbrev one_open : Files
one_open = (handle_vfs_openroot memory 0x1000 fresh client open_root).1

abbrev root_info : FileInfo
root_info = record {
  type = 1;
  executable = true;
  info = 64;
  size = 0;
  name = 0 ∷ 0 ∷ 0 ∷ 0 ∷ 0 ∷ 0 ∷ 0 ∷ 0 ∷ 0 ∷ 0 ∷ 0 ∷ 0 ∷ 0 ∷ 0 ∷ 0 ∷ 0 ∷ [];
}

abbrev a_info : FileInfo
a_info = record {
  type = 2;
  executable = false;
  info = 0;
  size = 5;
  name = b'a' ∷ 0 ∷ 0 ∷ 0 ∷ 0 ∷ 0 ∷ 0 ∷ 0 ∷ 0 ∷ 0 ∷ 0 ∷ 0 ∷ 0 ∷ 0 ∷ 0 ∷ 0 ∷ [];
}

abbrev root_open : Files
root_open = put fresh 29 (open_file client root_fd 32 root_info)

fresh-IsReachable : IsReachable fresh
fresh-IsReachable i owner fd f = absurd (cc (f.in_use))

open_root_run :
    handle_request memory 0x1000 fresh client open_root (λ v. v) 3
    ≡ some (openroot_ret root_fd, root_open)
unfolding handle_request handle_vfs_openroot romfs_file_info romfs_map insertion_from probe
    hash_combine
open_root_run = refl

handle_request-IsReachable_example : IsReachable root_open
handle_request-IsReachable_example =
    handle_request-IsReachable memory 0x1000 fresh client open_root (λ v. v) 3
      (openroot_ret root_fd, root_open) fresh-IsReachable open_root_run

handle_request-opened_example : opened root_open 0x18001 root_fd ≡ opened fresh 0x18001 root_fd
handle_request-opened_example =
    handle_request-opened memory 0x1000 fresh client open_root (λ v. v) 3
      (openroot_ret root_fd, root_open) fresh-IsReachable open_root_run 0x18001 root_fd
      (λ h. absurd (omega (arith, h)))

find_vfs_file_state-IsFile_example :
    ((r : ℕ) × (find_vfs_file_state root_open client root_fd ≡ some r)
      × IsFile root_open client root_fd r)
    ⊎ ((find_vfs_file_state root_open client root_fd ≡ none)
        × ((i : ℕ) → IsFile root_open client root_fd i → ⊥))
find_vfs_file_state-IsFile_example = find_vfs_file_state-IsFile root_open client root_fd (
    handle_request-IsReachable memory 0x1000 fresh client open_root (λ v. v) 3
      (openroot_ret root_fd, root_open) fresh-IsReachable open_root_run)

abbrev a_open : Files
a_open = put root_open 28 (open_file client 4 64 a_info)

open_a_run : handle_vfs_openat memory 0x1000 root_open client open_a 3 ≡ some (openat_ret 4, a_open)
unfolding handle_vfs_openat romfs_map romfs_file_info romfs_openat find_file romfs_next_file strcmp
    insertion_from find_from probe hash_combine
open_a_run = refl

handle_vfs_openat-opened_example :
    (name : List ℕ) × (dir off : ℕ) × (info : FileInfo) × (terminate 1 (b'a' ∷ 9 ∷ 9 ∷ [])
      ≡ some name)
    × (find_vfs_file_state root_open client root_fd ≡ some dir)
    × (romfs_openat (romfs_map memory 0x1000) 3 (root_open dir).file_off name ≡ some off)
    × (romfs_file_info (romfs_map memory 0x1000) off ≡ some info)
    × (4 ≡ open_a.mrs 2)
    × (opened a_open client 4 ≡ some (open_file client 4 off info))
handle_vfs_openat-opened_example =
    handle_vfs_openat-opened memory 0x1000 root_open client open_a 3 4 a_open open_a_run

abbrev close_root : Message
close_root = record { label = 2; u = 1; t = 0; mrs = word root_fd 0 0; buffer = [] }

-- Four bytes from the second on.
abbrev read_a : Message
read_a = record { label = 4; u = 3; t = 0; mrs = word 4 1 9; buffer = [] }

found_a : find_vfs_file_state a_open client 4 ≡ some 28
unfolding find_vfs_file_state find_from probe hash_combine
found_a = refl

handle_vfs_read_bounds_example :
    (length : ℕ) × (handle_vfs_read memory 0x1000 a_open client read_a
      ≡ read_ret length (0x1000 + (64 + 32) + 1))
    × (length ≤ 9)
    × (1 + length ≤ 5)
    × (length < 2 ^ 22)
    × ((length ≡ 9) ⊎ (1 + length ≡ 5) ⊎ ((2 ^ 22 ≤ 9) × (1 + 2 ^ 22 ≤ 5)))
handle_vfs_read_bounds_example =
    handle_vfs_read_bounds memory 0x1000 a_open client read_a 28 found_a refl refl (omega arith)
      (omega arith) (omega arith)

-- An offset behind the end of the file: all of the requested bytes.
abbrev read_behind : Message
read_behind = record { label = 4; u = 3; t = 0; mrs = word 4 100 1000; buffer = [] }

read_behind_run : handle_vfs_read memory 0x1000 a_open client read_behind ≡ read_ret 1000 0x10c4
unfolding handle_vfs_read find_from probe hash_combine
read_behind_run = refl

-- Of a file of 4 MiB a read of all bytes gives none.
abbrev large_open : Files
large_open = put fresh 28 (open_file client 4 64 (record a_info { size = 2 ^ 22 }))

abbrev read_large : Message
read_large = record { label = 4; u = 3; t = 0; mrs = word 4 0 (2 ^ 22); buffer = [] }

read_large_run : handle_vfs_read memory 0x1000 large_open client read_large ≡ read_ret 0 0x1060
unfolding handle_vfs_read find_from probe hash_combine
read_large_run = refl

abbrev map_a : Message
map_a = record {
  label = 6;
  u = 4;
  t = 0;
  mrs = λ i. if i == 1 then 4 else if i == 3 then 5 else if i == 4 then 4 else 0;
  buffer = [];
}

-- 27 leading zeros of every size
abbrev a_item : ℕ × ℕ
a_item = Fpage.map_item (record { perm = 4; s = 46; b = 8 }) 0x1000

map_a_run : handle_vfs_map memory 0x1000 a_open client map_a (λ v. 22) ≡ map_ret 0x1060 a_item
unfolding handle_vfs_map find_from probe hash_combine Fpage.map_item Fpage.add_rights Fpage.fpage
map_a_run = refl

-- Two files whose rounds are the same, the first of them closed: the place for the second one, which is
-- still open, is another entry than its own.
abbrev second_only : Files
second_only =
    put (put fresh 29 (record closed { status = tombstone; owner = client; fd = root_fd })) 30
      (open_file client 35 64 a_info)

twice_open :
    (find_vfs_file_state second_only client 35 ≡ some 30)
    × (find_vfs_file_state_insertion_point second_only client 35 ≡ some 29)
unfolding find_vfs_file_state find_vfs_file_state_insertion_point find_from insertion_from probe
    hash_combine
twice_open = (refl, refl)
