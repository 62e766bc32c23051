-- ===== src/RomfsServer/Requests.antt =====
-- The outcomes of the requests that open a file, usr/root/romfs_server.c.
use bradyp_os.Base.{
  ℕ, ◌≡◌, ◌≢◌, ◌⊎◌, inl, inr, ap, false, none, some, List, ◌==◌, Bool-cases, Option-cases,
  ne_of_test, arith,
}
use bradyp_os.Base.Array.{Array}
use bradyp_os.Romfs.{FileInfo, invalid_file, romfs_file_info, romfs_openat}
use bradyp_os.RomfsServer.{
  Status, used, is_used, Files, put, find_vfs_file_state, find_vfs_file_state_insertion_point,
}
use bradyp_os.Memory.{item_type, item_compound, item_length}
use bradyp_os.RomfsServer.Handlers.{
  Errno, einval, enoent, enomem, ebadf, eio, Reply, error, openat_ret, Message, malformed,
  terminate, open_file, romfs_map, place_file, handle_vfs_openat,
}

not_used : (s : Status) → is_used s ≡ false → s ≢ used
not_used s h e = ground (arith, ap is_used e, h)

module _ (memory : Array) (rootfs_base : ℕ) (files : Files) (from : ℕ) (m : Message) where
  -- The outcomes of the search for a place.
  pub place_file-cases :
      (fd file_off : ℕ) (answer : Reply)
      → ((e : Errno) × (place_file memory rootfs_base files from m fd file_off answer
            ≡ (error e, files)))
        ⊎ ((p : ℕ) × (info : FileInfo) × (find_vfs_file_state_insertion_point files from fd
              ≡ some p)
            × ((files p).status ≢ used)
            × (romfs_file_info (romfs_map memory rootfs_base) file_off ≡ some info)
            × (place_file memory rootfs_base files from m fd file_off answer
                ≡ (answer, put files p (open_file from fd file_off info))))
  unfolding place_file
  place_file-cases fd file_off answer =
      elim (Option-cases (find_vfs_file_state_insertion_point files from fd)) [
        | inl nowhere ↦ inl (enomem, ground (arith, nowhere))
        | inr (p, at) ↦ elim (Bool-cases (is_used (files p).status)) [
          | inl taken ↦ inl (ebadf, ground (arith, at, taken))
          | inr vacant ↦
              elim (Option-cases (romfs_file_info (romfs_map memory rootfs_base) file_off)) [
                | inl unread ↦ inl (eio, ground (arith, at, vacant, unread))
                | inr (info, read) ↦ inr (
                  p,
                  info,
                  at,
                  not_used (files p).status vacant,
                  read,
                  ground (arith, at, vacant, read),
                )
              ]
        ]
      ]

  -- The outcomes of an `openat`: no result, an error, or a place for the file that the search gives.
  pub openat-cases :
      (fuel : ℕ)
      → (handle_vfs_openat memory rootfs_base files from m fuel ≡ none)
        ⊎ ((e : Errno) × (handle_vfs_openat memory rootfs_base files from m fuel
              ≡ some (error e, files)))
        ⊎ ((name : List ℕ) × (dir off : ℕ) × (terminate (item_length (m.mrs 3)) m.buffer
              ≡ some name)
            × (find_vfs_file_state files from (m.mrs 1) ≡ some dir)
            × (romfs_openat (romfs_map memory rootfs_base) fuel (files dir).file_off name
                ≡ some off)
            × (off ≢ invalid_file)
            × (handle_vfs_openat memory rootfs_base files from m fuel
                ≡ some (
                    place_file memory rootfs_base files from m
                      (m.mrs 2)
                      off
                      (openat_ret (m.mrs 2)))))
  unfolding handle_vfs_openat
  openat-cases fuel = elim (Bool-cases (malformed m 2 2)) [
    | inl bad ↦ inr (inl (einval, rw bad))
    | inr good ↦ elim (Bool-cases (item_type (m.mrs 3) == 0)) [
      | inr wrong ↦ inr (inl (einval, rw (good, wrong)))
      | inl string ↦ elim (Bool-cases (item_compound (m.mrs 3) == 0)) [
        | inr compound ↦ inr (inl (einval, rw (good, string, compound)))
        | inl simple ↦ elim (Option-cases (terminate (item_length (m.mrs 3)) m.buffer)) [
          | inl out ↦ inl (rw (good, string, simple, out))
          | inr (name, named) ↦ elim (Option-cases (find_vfs_file_state files from (m.mrs 1))) [
            | inl closed ↦ inr (inl (einval, rw (good, string, simple, named, closed)))
            | inr (dir, at) ↦
                elim (Option-cases
                  (romfs_openat (romfs_map memory rootfs_base) fuel (files dir).file_off name)) [
                    | inl stuck ↦ inl (rw (good, string, simple, named, at, stuck))
                    | inr (off, found) ↦ elim (Bool-cases (off == invalid_file)) [
                      | inl missing ↦
                          inr (inl (enoent, rw (good, string, simple, named, at, found, missing)))
                      | inr there ↦ inr (
                          inr (
                            name,
                            dir,
                            off,
                            named,
                            at,
                            found,
                            ne_of_test off invalid_file there,
                            rw (good, string, simple, named, at, found, there),
                          ))
                    ]
                  ]
          ]
        ]
      ]
    ]
  ]
