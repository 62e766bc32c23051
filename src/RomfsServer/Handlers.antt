-- ===== src/RomfsServer/Handlers.antt =====
-- usr/root/romfs_server.c: the volume in memory and the handlers of requests. The answer that a handler
-- loads into the message registers is a `Reply`. `clz` is the compiler's __builtin_clz.
use bradyp_os.Base.{
  ℕ, zero, suc, ◌+◌, ◌-◌, ◌*◌, ◌/◌, ◌%◌, ◌^◌, Bool, not, ◌||◌, Option, none, some, List, [], ◌∷◌,
  ltb, ◌==◌, if◌then◌else◌, ◌>>=◌,
}
use bradyp_os.Base.Array.{Array}
use bradyp_os.Fpage
use bradyp_os.Memory.{item_type, item_compound, item_length}
use bradyp_os.Romfs.{
  FileInfo, invalid_file, romfs_file_info, romfs_openat, romfs_root_directory,
  romfs_file_content_offset,
}
use bradyp_os.RomfsServer.{
  used, is_used, FileState, Files, put, find_vfs_file_state, find_vfs_file_state_insertion_point,
  delete_vfs_file_state,
}

-- The error numbers that the handlers answer with.
pub data Errno : Type 0 where
  einval enoent enomem ebadf eio erofs efault : Errno

-- `enum vfs_file_type`
pub data VfsFileType : Type 0 where
  regular directory hardlink symlink other : VfsFileType

pub data Reply : Type 0 where
  error : Errno → Reply
  openroot_ret : (fd : ℕ) → Reply
  openat_ret : (fd : ℕ) → Reply
  close_ret : Reply
  stat_ret : (size : ℕ) → VfsFileType → Reply
  read_ret : (length ptr : ℕ) → Reply
  map_ret : (file_addr : ℕ) → (item : ℕ × ℕ) → Reply
  unanswered : Reply

-- The fields of the message tag, the message registers, and the bytes where the string of the message
-- was received.
pub record Message : Type 0 where
  pub label : ℕ
  pub u : ℕ
  pub t : ℕ
  pub mrs : Array
  pub buffer : List ℕ

-- `((char *)item.ptr)[item.length] = '\0';` `none` means that the byte is not in the buffer.
unfoldable pub terminate : (length : ℕ) → (buffer : List ℕ) → Option (List ℕ)
terminate length [] = none
terminate zero (b ∷ bs) = some (0 ∷ bs)
terminate (suc n) (b ∷ bs) = terminate n bs >>= λ rest. some (b ∷ rest)

abbrev pub vfs_type : (type : ℕ) → VfsFileType
vfs_type type =
    if type == 2
    then regular
    else if type == 1
    then directory
    else if type == 3
    then symlink
    else if type == 0
    then hardlink
    else other

-- Whether the tag does not have these numbers of words.
abbrev pub malformed : Message → (u t : ℕ) → Bool
malformed m u t = not (m.u == u) || not (m.t == t)

abbrev pub open_file : (owner fd file_off : ℕ) → FileInfo → FileState
open_file owner fd file_off info = record {
  status = used;
  owner = owner;
  fd = fd;
  file_info = info;
  file_off = file_off;
}

-- A pointer is a 32-bit word.
unfoldable pub romfs_map : (memory : Array) (rootfs_base : ℕ) → (offset size : ℕ) → Option Array
romfs_map memory rootfs_base offset size = some (λ i. memory ((rootfs_base + offset + i) % 2 ^ 32))

module _ (memory : Array) (rootfs_base : ℕ) (files : Files) (from : ℕ) (m : Message) where
  -- From the search for a place for the new file on.
  unfoldable pub place_file : (fd : ℕ) → (file_off : ℕ) → (answer : Reply) → Reply × Files
  unfolding find_vfs_file_state_insertion_point
  place_file fd file_off answer = elim (find_vfs_file_state_insertion_point files from fd) [
    | none ↦ (error enomem, files)
    | some p ↦
        if is_used (files p).status
        then (error ebadf, files)
        else elim (romfs_file_info (romfs_map memory rootfs_base) file_off) [
          | none ↦ (error eio, files)
          | some info ↦ (answer, put files p (open_file from fd file_off info))
        ]
  ]

  -- The root directory's offset is never that of an invalid file.
  unfoldable pub handle_vfs_openroot : Reply × Files
  unfolding place_file
  handle_vfs_openroot =
      let fd = m.mrs 1 in
      if malformed m 1 0
      then (error einval, files)
      else place_file fd romfs_root_directory (openroot_ret fd)

  unfoldable pub handle_vfs_openat : (fuel : ℕ) → Option (Reply × Files)
  unfolding place_file terminate find_vfs_file_state
  handle_vfs_openat fuel =
      let fd = m.mrs 1 in
      let new_fd = m.mrs 2 in
      let item = m.mrs 3 in
      if malformed m 2 2
      then some (error einval, files)
      else if not (item_type item == 0)
      then some (error einval, files)
      else if not (item_compound item == 0)
      then some (error einval, files)
      else terminate (item_length item) m.buffer >>= λ name.
          elim (find_vfs_file_state files from fd) [
            | none ↦ some (error einval, files)
            | some dir ↦
                romfs_openat (romfs_map memory rootfs_base) fuel (files dir).file_off name
                >>= λ file_offset.
                    if file_offset == invalid_file
                    then some (error enoent, files)
                    else some (place_file new_fd file_offset (openat_ret new_fd))
          ]

  unfoldable pub handle_vfs_close : Reply × Files
  unfolding delete_vfs_file_state
  handle_vfs_close =
      let deleted = delete_vfs_file_state files from (m.mrs 1) in
      if malformed m 1 0
      then (error einval, files)
      else (if deleted.1 then close_ret else error enoent, deleted.0)

  unfoldable pub handle_vfs_stat : Reply
  unfolding find_vfs_file_state
  handle_vfs_stat =
      if malformed m 1 0 then error einval else elim (find_vfs_file_state files from (m.mrs 1)) [
        | none ↦ error einval
        | some p ↦ elim (romfs_file_info (romfs_map memory rootfs_base) (files p).file_off) [
          | none ↦ error eio
          | some info ↦ stat_ret info.size (vfs_type info.type)
        ]
      ]

  -- The offset is an `int`, and the subtraction that of 32-bit words. The length of the answer is a field
  -- of 22 bits.
  unfoldable pub handle_vfs_read : Reply
  unfolding find_vfs_file_state romfs_file_content_offset
  handle_vfs_read =
      let offset = m.mrs 2 in
      let size = m.mrs 3 in
      if malformed m 3 0 then error einval else elim (find_vfs_file_state files from (m.mrs 1)) [
        | none ↦ error einval
        | some p ↦
            let content_offset = romfs_file_content_offset (files p).file_off in
            let remaining_file_size = ((files p).file_info.size + 2 ^ 32 - offset) % 2 ^ 32 in
            read_ret ((if ltb remaining_file_size size then remaining_file_size else size) % 2 ^ 22)
              ((rootfs_base + content_offset + offset) % 2 ^ 32)
      ]

  unfoldable pub handle_vfs_write : Reply
  unfolding find_vfs_file_state
  handle_vfs_write =
      if malformed m 3 2 then error einval else elim (find_vfs_file_state files from (m.mrs 1)) [
        | none ↦ error ebadf
        | some p ↦ error erofs
      ]

  unfoldable pub handle_vfs_map : (clz : ℕ → ℕ) → Reply
  unfolding find_vfs_file_state romfs_file_content_offset
  handle_vfs_map clz =
      let offset = m.mrs 2 in
      let size = m.mrs 3 in
      let perm = m.mrs 4 in
      if malformed m 4 0 then error einval else elim (find_vfs_file_state files from (m.mrs 1)) [
        | none ↦ error ebadf
        | some p ↦
            let file_size = (files p).file_info.size in
            let file_addr = (rootfs_base + romfs_file_content_offset (files p).file_off) % 2 ^ 32 in
            let mapping_addr = file_addr / 512 * 512 in
            let mapping_size = (file_size + file_addr % 512 + 512 - 1) % 2 ^ 32 / 512 * 512 in
            if ltb file_size ((offset + size) % 2 ^ 32)
            then error efault
            else if not (perm / 2 % 2 == 0)
            then error erofs
            else map_ret file_addr (
                Fpage.map_item (Fpage.add_rights (Fpage.fpage clz mapping_addr mapping_size) perm)
                  mapping_addr)
      ]

  -- The switch of `romfs_main`: a request of another label changes no message register.
  unfoldable pub handle_request : (clz : ℕ → ℕ) → (fuel : ℕ) → Option (Reply × Files)
  handle_request clz fuel =
      if m.label == 0
      then some handle_vfs_openroot
      else if m.label == 1
      then handle_vfs_openat fuel
      else if m.label == 2
      then some handle_vfs_close
      else if m.label == 3
      then some (handle_vfs_stat, files)
      else if m.label == 4
      then some (handle_vfs_read, files)
      else if m.label == 5
      then some (handle_vfs_write, files)
      else if m.label == 6
      then some (handle_vfs_map clz, files)
      else some (unanswered, files)
