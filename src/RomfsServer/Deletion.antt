-- ===== src/RomfsServer/Deletion.antt =====
-- The table of open files of usr/root/romfs_server.c: deletion.
use bradyp_os.Base.{
  ℕ, zero, suc, ◌+◌, ◌≡◌, ◌≢◌, ◌⊎◌, refl, ap, sym, ◌∙◌, Bool, true, false, Option, none, some,
  arith,
}
use bradyp_os.RomfsServer.{
  free, used, tombstone, FileState, Files, file_state_log, put, probe, find_from, delete_from,
  find_vfs_file_state, delete_vfs_file_state,
}
use bradyp_os.RomfsServer.Table.{
  IsFile, Round, round, find_free, find_hit, find_tombstone, find_other,
}

module _ (files : Files) (owner fd n i : ℕ) where
  -- Deletion puts a tombstone where the lookup finds the file.
  delete_free :
      (files (probe owner fd i)).status ≡ free
      → delete_from files owner fd (suc n) i ≡ (files, false)
  unfolding delete_from
  delete_free h = ground (arith, h)

  delete_hit :
      IsFile files owner fd (probe owner fd i)
      → delete_from files owner fd (suc n) i ≡ (
        put files (probe owner fd i) (record (files (probe owner fd i)) { status = tombstone }),
        true,
      )
  unfolding delete_from
  delete_hit h = ground (arith, h.in_use, h.same_owner, h.same_fd)

  delete_tombstone :
      (files (probe owner fd i)).status ≡ tombstone
      → delete_from files owner fd (suc n) i ≡ delete_from files owner fd n (i + 1)
  unfolding delete_from
  delete_tombstone h = ground (arith, h)

  delete_other :
      (files (probe owner fd i)).status ≡ used
      → ((files (probe owner fd i)).owner ≢ owner) ⊎ ((files (probe owner fd i)).fd ≢ fd)
      → delete_from files owner fd (suc n) i ≡ delete_from files owner fd n (i + 1)
  unfolding delete_from
  delete_other h d = ground (arith, h, d)

-- The entry without its file.
abbrev pub buried : Files → ℕ → FileState
buried files r = record (files r) { status = tombstone }

-- What deletion does with what the lookup finds.
abbrev pub after_lookup : Files → Option ℕ → Files × Bool
after_lookup files none = (files, false)
after_lookup files (some r) = (put files r (buried files r), true)

module _ (files : Files) (owner fd : ℕ) where
  no_rounds :
      (i : ℕ)
      → (delete_from files owner fd zero i ≡ (files, false))
        × (find_from files owner fd zero i ≡ none)
  unfolding delete_from find_from
  no_rounds i = (refl, refl)

  delete_from-find_from :
      (n i : ℕ) → delete_from files owner fd n i ≡ after_lookup files (find_from files owner fd n i)
  delete_from-find_from zero i = (no_rounds i).0 ∙ ap (after_lookup files) (sym (no_rounds i).1)
  delete_from-find_from (suc n) i =
      let rest = delete_from-find_from n (i + 1) in
      elim (round files owner fd (probe owner fd i)) [
        | Round.at_free e ↦
            delete_free files owner fd n i e
            ∙ ap (after_lookup files) (sym (find_free files owner fd n i e))
        | Round.at_file h ↦
            delete_hit files owner fd n i h
            ∙ ap (after_lookup files) (sym (find_hit files owner fd n i h))
        | Round.at_tombstone e ↦
            delete_tombstone files owner fd n i e
            ∙ rest
            ∙ ap (after_lookup files) (sym (find_tombstone files owner fd n i e))
        | Round.at_other e d ↦
            delete_other files owner fd n i e d
            ∙ rest
            ∙ ap (after_lookup files) (sym (find_other files owner fd n i e d))
      ]

  -- Deletion is the lookup: it puts a tombstone where the lookup finds an entry, and fails and changes
  -- nothing where it finds none.
  pub delete_vfs_file_state-find :
      delete_vfs_file_state files owner fd ≡ after_lookup files (find_vfs_file_state files owner fd)
  unfolding delete_vfs_file_state find_vfs_file_state
  delete_vfs_file_state-find = delete_from-find_from file_state_log 0
