-- ===== src/RomfsServer/Clients.antt =====
-- What a client of usr/root/romfs_server.c gets when it opens and closes files.
use bradyp_os.Base.{ℕ, ◌≡◌, ◌≢◌, ◌↔◌, inl, inr, refl, ap, sym, ◌∙◌, some, List, some_inj, no_result}
use mathlib.Core.Path.{subst}
use bradyp_os.Base.Array.{Array}
use bradyp_os.Romfs.{FileInfo, romfs_file_info, romfs_openat}
use bradyp_os.RomfsServer.{Files, put, find_vfs_file_state, find_vfs_file_state_insertion_point}
use bradyp_os.RomfsServer.Table.{IsFile, IsReachable, find_vfs_file_state-IsFile}
use bradyp_os.RomfsServer.Deletion.{delete_vfs_file_state-find}
use bradyp_os.RomfsServer.Insertion.{insert-find, put_same}
use bradyp_os.RomfsServer.Requests.{place_file-cases, openat-cases}
use bradyp_os.RomfsServer.Steps.{opened}
use bradyp_os.Memory.{item_length}
use bradyp_os.RomfsServer.Handlers.{
  Errno, Reply, error, openat_ret, close_ret, Message, terminate, open_file, romfs_map, place_file,
  handle_vfs_openat, handle_vfs_close,
}

module _ (memory : Array) (rootfs_base : ℕ) (files : Files) (from : ℕ) (m : Message) where
  opened-put :
      (p fd off : ℕ) (info : FileInfo)
      → find_vfs_file_state_insertion_point files from fd ≡ some p
      → opened (put files p (open_file from fd off info)) from fd
        ≡ some (open_file from fd off info)
  opened-put p fd off info at =
      let f = open_file from fd off info in
      rw (insert-find files from fd p f refl refl refl at) (ap some (put_same files p f))

  opened-place_file :
      (fd off : ℕ) (answer : Reply) (files' : Files)
      → ((e : Errno) → answer ≢ error e)
      → place_file memory rootfs_base files from m fd off answer ≡ (answer, files')
      → (info : FileInfo) × (romfs_file_info (romfs_map memory rootfs_base) off ≡ some info)
        × (opened files' from fd ≡ some (open_file from fd off info))
  opened-place_file fd off answer files' good h =
      elim (place_file-cases memory rootfs_base files from m fd off answer) [
        | inl (e, refused) ↦ absurd (good e (ap (λ r. r.0) (sym h ∙ refused)))
        | inr (p, info, at, vacant, read, done) ↦ (
          info,
          read,
          subst (λ fs. opened fs from fd ≡ some (open_file from fd off info))
              (ap (λ r. r.1) (sym done ∙ h)) (opened-put p fd off info at),
        )
      ]

  -- Where an `openat` is answered with success, the client finds under the new identifier the state of
  -- the file that the search of the directory under the old identifier gives for the received name, with
  -- the header of this file.
  pub handle_vfs_openat-opened :
      (fuel fd : ℕ) (files' : Files)
      → handle_vfs_openat memory rootfs_base files from m fuel ≡ some (openat_ret fd, files')
      → (name : List ℕ) × (dir off : ℕ) × (info : FileInfo) × (terminate
            (item_length (m.mrs 3))
            m.buffer
          ≡ some name)
        × (find_vfs_file_state files from (m.mrs 1) ≡ some dir)
        × (romfs_openat (romfs_map memory rootfs_base) fuel (files dir).file_off name ≡ some off)
        × (romfs_file_info (romfs_map memory rootfs_base) off ≡ some info)
        × (fd ≡ m.mrs 2)
        × (opened files' from fd ≡ some (open_file from fd off info))
  handle_vfs_openat-opened fuel fd files' h =
      elim (openat-cases memory rootfs_base files from m fuel) [
        | inl stuck ↦ no_result (sym stuck ∙ h)
        | inr (inl (e, refused)) ↦ absurd (not_error e (ap (λ x. x.0) (some_inj (sym h ∙ refused))))
        | inr (inr (name, dir, off, named, at, found, there, done)) ↦
            let same_fd = placed-fd off (some_inj (sym done ∙ h)) in
            let (info, read, stored) = opened-place_file fd off (openat_ret fd) files' not_error (
              subst
                (λ d.
                  place_file memory rootfs_base files from m d off (openat_ret d)
                  ≡ (openat_ret fd, files'))
                (sym same_fd) (some_inj (sym done ∙ h))) in
            (name, dir, off, info, named, at, found, read, same_fd, stored)
      ]
    where
      not_error : (e : Errno) → openat_ret fd ≢ error e
      not_error e = λ h. cc

      placed-fd :
          (off : ℕ)
          → place_file memory rootfs_base files from m (m.mrs 2) off (openat_ret (m.mrs 2))
            ≡ (openat_ret fd, files')
          → fd ≡ m.mrs 2
      placed-fd off k =
          elim (place_file-cases memory rootfs_base files from m (m.mrs 2) off
            (openat_ret (m.mrs 2))) [
              | inl (e, refused) ↦ absurd (not_error e (ap (λ r. r.0) (sym k ∙ refused)))
              | inr (p, info, at, vacant, read, done) ↦ cc (ap (λ r. r.0) (sym k ∙ done))
            ]

  -- A `close` of one untyped word is answered with success exactly if an entry in use has this client and
  -- identifier, in a searchable table.
  pub handle_vfs_close_iff :
      IsReachable files
      → m.u ≡ 1
      → m.t ≡ 0
      → ((handle_vfs_close memory rootfs_base files from m).0 ≡ close_ret)
        ↔ ((i : ℕ) × IsFile files from (m.mrs 1) i)
  unfolding handle_vfs_close
  handle_vfs_close_iff reach u t =
      rw (u, t, delete_vfs_file_state-find files from (m.mrs 1))
        (elim (find_vfs_file_state-IsFile files from (m.mrs 1) reach) [
          | inl (p, found, file) ↦ rw found ((λ _. (p, file)), (λ _. refl))
          | inr (nothing, none_open) ↦
              rw nothing ((λ h. absurd (cc (h))), (λ f. absurd (none_open f.0 f.1)))
        ])
