-- ===== src/RomfsServer/Steps.antt =====
-- Requests to usr/root/romfs_server.c as steps of the table of open files.
use bradyp_os.Base.{
  ℕ, ◌≡◌, ◌≢◌, inl, inr, refl, ap, sym, ◌∙◌, Option, none, some, ◌==◌, if◌then◌else◌, ◌>>=◌,
  Bool-cases, Option-cases, some_inj, no_result, if_inv, arith,
}
use mathlib.Core.Path.{subst}
use bradyp_os.Base.Array.{Array}
use bradyp_os.RomfsServer.{
  used, FileState, Files, put, find_vfs_file_state, find_vfs_file_state_insertion_point,
}
use bradyp_os.RomfsServer.Table.{IsFile, IsReachable, find_from-IsFile}
use bradyp_os.RomfsServer.Deletion.{buried, after_lookup, delete_vfs_file_state-find}
use bradyp_os.RomfsServer.Insertion.{insert-IsReachable, put_other}
use bradyp_os.RomfsServer.Isolation.{
  find_vfs_file_state-put, find_vfs_file_state-buried, buried-IsReachable,
}
use bradyp_os.RomfsServer.Handlers.{
  Reply, openroot_ret, openat_ret, Message, malformed, handle_vfs_stat, handle_vfs_read,
  handle_vfs_write, handle_vfs_map, unanswered, open_file, place_file, handle_vfs_openroot,
  handle_vfs_openat, handle_vfs_close, handle_request,
}
use bradyp_os.RomfsServer.Requests.{place_file-cases, openat-cases}

-- A step of the table: nothing, a new file of the client at its insertion point, which is vacant, or the
-- end of a file of the client.
pub data Change (files files' : Files) (from : ℕ) : Type 0 where
  same : files' ≡ files → Change files files' from
  placed :
      (p : ℕ) (f : FileState)
      → find_vfs_file_state_insertion_point files f.owner f.fd ≡ some p
      → (files p).status ≢ used
      → f.status ≡ used
      → f.owner ≡ from
      → files' ≡ put files p f
      → Change files files' from
  removed :
      (fd p : ℕ)
      → IsFile files from fd p
      → files' ≡ put files p (buried files p)
      → Change files files' from

pub found-IsFile :
    (files : Files) (owner fd p : ℕ)
    → find_vfs_file_state files owner fd ≡ some p
    → IsFile files owner fd p
unfolding find_vfs_file_state
found-IsFile files owner fd p h = find_from-IsFile files owner fd 5 0 p h

module _ (memory : Array) (rootfs_base : ℕ) (files : Files) (from : ℕ) (m : Message) where
  place_file-Change :
      (fd file_off : ℕ) (answer : Reply)
      → Change files (place_file memory rootfs_base files from m fd file_off answer).1 from
  place_file-Change fd file_off answer =
      elim (place_file-cases memory rootfs_base files from m fd file_off answer) [
        | inl (e, refused) ↦ same (ap (λ r. r.1) refused)
        | inr (p, info, at, vacant, read, done) ↦
            placed p (open_file from fd file_off info) at vacant refl refl (ap (λ r. r.1) done)
      ]

  openroot-Change : Change files (handle_vfs_openroot memory rootfs_base files from m).1 from
  unfolding handle_vfs_openroot
  openroot-Change = elim (Bool-cases (malformed m 1 0)) [
    | inl bad ↦ same (rw bad refl)
    | inr good ↦ rw good (place_file-Change (m.mrs 1) 32 (openroot_ret (m.mrs 1)))
  ]

  openat-Change :
      (fuel : ℕ) (r : Reply × Files)
      → handle_vfs_openat memory rootfs_base files from m fuel ≡ some r
      → Change files r.1 from
  openat-Change fuel r h = elim (openat-cases memory rootfs_base files from m fuel) [
    | inl stuck ↦ no_result (sym stuck ∙ h)
    | inr (inl (e, refused)) ↦ same (sym (ap (λ x. x.1) (some_inj (sym refused ∙ h))))
    | inr (inr (name, dir, off, named, at, found, there, done)) ↦
        subst (λ x. Change files x.1 from) (some_inj (sym done ∙ h))
          (place_file-Change (m.mrs 2) off (openat_ret (m.mrs 2)))
  ]

  close-Change : Change files (handle_vfs_close memory rootfs_base files from m).1 from
  unfolding handle_vfs_close
  close-Change = elim (Bool-cases (malformed m 1 0)) [
    | inl bad ↦ same (rw bad refl)
    | inr good ↦ rw (good, delete_vfs_file_state-find files from (m.mrs 1)) (after _ refl)
  ]
    where
      after :
          (o : Option ℕ)
          → find_vfs_file_state files from (m.mrs 1) ≡ o
          → Change files (after_lookup files o).0 from
      after none h = same refl
      after (some p) h = removed (m.mrs 1) p (found-IsFile files from (m.mrs 1) p h) refl

  handle_request-Change :
      (clz : ℕ → ℕ) (fuel : ℕ) (r : Reply × Files)
      → handle_request memory rootfs_base files from m clz fuel ≡ some r
      → Change files r.1 from
  unfolding handle_request
  handle_request-Change clz fuel r h = elim (if_inv (m.label == 0) h) [
    | inl a ↦ subst (λ x. Change files x.1 from) (some_inj a) openroot-Change
    | inr h1 ↦ elim (if_inv (m.label == 1) h1) [
      | inl a ↦ openat-Change fuel r a
      | inr h2 ↦ elim (if_inv (m.label == 2) h2) [
        | inl a ↦ subst (λ x. Change files x.1 from) (some_inj a) close-Change
        | inr h3 ↦ same (unchanged h3)
      ]
    ]
  ]
    where
      unchanged :
          (if m.label == 3
              then some (handle_vfs_stat memory rootfs_base files from m, files)
              else if m.label == 4
              then some (handle_vfs_read memory rootfs_base files from m, files)
              else if m.label == 5
              then some (handle_vfs_write memory rootfs_base files from m, files)
              else if m.label == 6
              then some (handle_vfs_map memory rootfs_base files from m clz, files)
              else some (unanswered, files))
            ≡ some r
          → r.1 ≡ files
      unchanged h = ground (arith, h)

-- What a thread has opened under a file identifier.
abbrev pub opened : Files → (owner fd : ℕ) → Option FileState
opened files owner fd = find_vfs_file_state files owner fd >>= λ p. some (files p)

Change-IsReachable :
    (files files' : Files) (from : ℕ)
    → Change files files' from
    → IsReachable files
    → IsReachable files'
Change-IsReachable files files' from (same e) reach = rw e reach
Change-IsReachable files files' from (placed p f at vacant u o e) reach =
    rw e (insert-IsReachable files f.owner f.fd p f u refl refl reach at)
Change-IsReachable files files' from (removed fd p file e) reach =
    rw e (buried-IsReachable files from fd p file reach)

opened-put_at :
    (files : Files) (p : ℕ) (g : FileState) (owner fd : ℕ)
    → find_vfs_file_state (put files p g) owner fd ≡ find_vfs_file_state files owner fd
    → (IsFile files owner fd p → ⊥)
    → opened (put files p g) owner fd ≡ opened files owner fd
opened-put_at files p g owner fd e apart =
    elim (Option-cases (find_vfs_file_state files owner fd)) [
      | inl nothing ↦ rw (e, nothing) refl
      | inr (q, found) ↦
          rw (e, found)
            (ap some (
              put_other files p q g (λ h.
                apart (subst (IsFile files owner fd) h (found-IsFile files owner fd q found)))))
    ]

Change-opened :
    (files files' : Files) (from : ℕ)
    → Change files files' from
    → IsReachable files
    → (owner fd : ℕ) → from ≢ owner
    → opened files' owner fd ≡ opened files owner fd
Change-opened files files' from (same e) reach owner fd ne = rw e refl
Change-opened files files' from (placed p f at vacant u o e) reach owner fd ne = rw e (
    opened-put_at files p f owner fd
      (find_vfs_file_state-put files p f u reach vacant owner fd (inl (λ h. ne (sym o ∙ h))))
      (λ g. vacant g.in_use))
Change-opened files files' from (removed fd' p file e) reach owner fd ne = rw e (
    opened-put_at files p (buried files p) owner fd
      (find_vfs_file_state-buried files from fd' p file owner fd (inl ne))
      (λ g. ne (sym file.same_owner ∙ g.same_owner)))

-- A request of a client keeps the table searchable, whatever its label and its words: every entry in use
-- stays where the search for its owner and identifier passes before it meets a free entry.
pub handle_request-IsReachable :
    (memory : Array) (rootfs_base : ℕ) (files : Files) (from : ℕ) (m : Message) (clz : ℕ → ℕ)
    (fuel : ℕ) (r : Reply × Files)
    → IsReachable files
    → handle_request memory rootfs_base files from m clz fuel ≡ some r
    → IsReachable r.1
handle_request-IsReachable memory rootfs_base files from m clz fuel r reach h =
    Change-IsReachable files r.1 from
      (handle_request-Change memory rootfs_base files from m clz fuel r h) reach

-- No request of a client opens, closes or changes a file of another thread, whatever its label and its
-- words: in a searchable table the other thread finds the same state under each of its identifiers.
pub handle_request-opened :
    (memory : Array) (rootfs_base : ℕ) (files : Files) (from : ℕ) (m : Message) (clz : ℕ → ℕ)
    (fuel : ℕ) (r : Reply × Files)
    → IsReachable files
    → handle_request memory rootfs_base files from m clz fuel ≡ some r
    → (owner fd : ℕ) → from ≢ owner
    → opened r.1 owner fd ≡ opened files owner fd
handle_request-opened memory rootfs_base files from m clz fuel r reach h owner fd ne =
    Change-opened files r.1 from
      (handle_request-Change memory rootfs_base files from m clz fuel r h) reach owner fd ne
