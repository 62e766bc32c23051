-- ===== src/RomfsServer/Isolation.antt =====
-- The table of open files of usr/root/romfs_server.c: an insertion or a deletion changes no lookup of
-- another file, and keeps the table searchable.
use bradyp_os.Base.{
  ℕ, zero, suc, ◌+◌, ◌<◌, ◌≡◌, ◌≢◌, ◌⊎◌, inl, inr, ap, sym, ◌∙◌, ◌==◌, Bool-cases, eq_of_test,
  ne_of_test, arith,
}
use mathlib.Core.Path.{subst}
use bradyp_os.RomfsServer.{
  free, used, tombstone, FileState, Files, file_state_log, put, probe, find_from,
  find_vfs_file_state,
}
use bradyp_os.RomfsServer.Table.{IsFile, IsReachable, Round, round, find_free, find_hit}
use bradyp_os.RomfsServer.Deletion.{buried}
use bradyp_os.RomfsServer.Insertion.{put_same, put_other}
use bradyp_os.RomfsServer.Stays.{
  Differ, IsPassed, passes, find_same_entry, find_zero, find_from-buried, behind_free,
}

module _ (files : Files) (r : ℕ) (f : FileState) (u : f.status ≡ used) (reach : IsReachable files)
    (vacant : (files r).status ≢ used) (owner' fd' : ℕ) (ne : Differ f.owner f.fd owner' fd') where
  new-IsPassed : IsPassed (put files r f r) owner' fd'
  new-IsPassed = subst (λ g. IsPassed g owner' fd') (sym (put_same files r f)) (inr (u, ne))

  -- A round in which the file does not stand, when the later rounds give the same.
  pass_round :
      (n i : ℕ)
      → find_from (put files r f) owner' fd' n (i + 1) ≡ find_from files owner' fd' n (i + 1)
      → find_from files owner' fd' n (i + 1) ≡ find_from files owner' fd' (suc n) i
        ⊎ ((files (probe owner' fd' i)).status ≡ used)
      → find_from (put files r f) owner' fd' (suc n) i ≡ find_from files owner' fd' (suc n) i
  pass_round n i rest same_or_used = elim (Bool-cases (probe owner' fd' i == r)) [
    | inl same ↦ same_round (sym (eq_of_test _ _ same)) same_or_used
    | inr other ↦
        find_same_entry files (put files r f) owner' fd' n i rest
          (put_other files r (probe owner' fd' i) f (ne_of_test _ _ other))
  ]
    where
      same_round :
          r ≡ probe owner' fd' i
          → (find_from files owner' fd' n (i + 1) ≡ find_from files owner' fd' (suc n) i)
            ⊎ ((files (probe owner' fd' i)).status ≡ used)
          → find_from (put files r f) owner' fd' (suc n) i ≡ find_from files owner' fd' (suc n) i
      same_round at (inl along) =
          passes (put files r f) owner' fd' n i
            (subst (λ j. IsPassed (put files r f j) owner' fd') at new-IsPassed)
          ∙ rest
          ∙ along
      same_round at (inr e) = absurd (vacant (ap (λ j. (files j).status) at ∙ e))

  hit_round :
      (n i : ℕ)
      → IsFile files owner' fd' (probe owner' fd' i)
      → find_from (put files r f) owner' fd' (suc n) i ≡ find_from files owner' fd' (suc n) i
  hit_round n i g =
      let p = probe owner' fd' i in
      let apart : p ≢ r = λ e. vacant (ap (λ j. (files j).status) (sym e) ∙ g.in_use) in
      let kept = put_other files r p f apart in
      find_hit (put files r f) owner' fd' n i (record {
        in_use = ap (λ (x : FileState). x.status) kept ∙ g.in_use;
        same_owner = ap (λ (x : FileState). x.owner) kept ∙ g.same_owner;
        same_fd = ap (λ (x : FileState). x.fd) kept ∙ g.same_fd;
      })
      ∙ sym (find_hit files owner' fd' n i g)

  no_file_yet :
      (i : ℕ)
      → (IsFile files owner' fd' (probe owner' fd' i) → ⊥)
      → ((j : ℕ) → j < i → IsFile files owner' fd' (probe owner' fd' j) → ⊥)
      → (j : ℕ) → j < i + 1
      → IsFile files owner' fd' (probe owner' fd' j)
      → ⊥
  no_file_yet i absent earlier j lt g = elim (Bool-cases (i == j)) [
    | inl same ↦
        absent
          (subst (λ k. IsFile files owner' fd' (probe owner' fd' k)) (sym (eq_of_test i j same)) g)
    | inr other ↦ earlier j (omega (arith, lt, ne_of_test i j other)) g
  ]

  find_from-put :
      (n i : ℕ)
      → ((j : ℕ) → j < i → IsFile files owner' fd' (probe owner' fd' j) → ⊥)
      → find_from (put files r f) owner' fd' n i ≡ find_from files owner' fd' n i
  find_from-put zero i earlier = find_zero files (put files r f) owner' fd' i
  find_from-put (suc n) i earlier =
      let later : (IsFile files owner' fd' (probe owner' fd' i) → ⊥)
          → find_from (put files r f) owner' fd' n (i + 1) ≡ find_from files owner' fd' n (i + 1) =
        λ absent. find_from-put n (i + 1) (no_file_yet i absent earlier) in
      elim (round files owner' fd' (probe owner' fd' i)) [
        | Round.at_file g ↦ hit_round n i g
        | Round.at_free e ↦ pass_round n i (later (λ g. cc (e, g.in_use))) (
            inl (
              behind_free files owner' fd' n i reach e earlier
              ∙ sym (find_free files owner' fd' n i e)))
        | Round.at_tombstone e ↦
            pass_round n i (later (λ g. cc (e, g.in_use)))
              (inl (sym (passes files owner' fd' n i (inl e))))
        | Round.at_other e d ↦ pass_round n i (later (λ g. unlike d g)) (inr e)
      ]
    where
      unlike :
          ((files (probe owner' fd' i)).owner ≢ owner') ⊎ ((files (probe owner' fd' i)).fd ≢ fd')
          → IsFile files owner' fd' (probe owner' fd' i)
          → ⊥
      unlike (inl d) g = d g.same_owner
      unlike (inr d) g = d g.same_fd

  -- A file that is put at a vacant entry of a table whose entries in use are all reachable changes no
  -- lookup of another file.
  pub find_vfs_file_state-put :
      find_vfs_file_state (put files r f) owner' fd' ≡ find_vfs_file_state files owner' fd'
  unfolding find_vfs_file_state
  find_vfs_file_state-put = find_from-put file_state_log 0 (λ j lt. absurd (omega (arith, lt)))

module _ (files : Files) (owner fd r : ℕ) (file : IsFile files owner fd r) where
  -- A file that is deleted changes no lookup of another file.
  pub find_vfs_file_state-buried :
      (owner' fd' : ℕ)
      → Differ owner fd owner' fd'
      → find_vfs_file_state (put files r (buried files r)) owner' fd'
        ≡ find_vfs_file_state files owner' fd'
  unfolding find_vfs_file_state
  find_vfs_file_state-buried owner' fd' ne =
      find_from-buried files owner fd r file owner' fd' file_state_log 0 ne

  -- A deletion keeps every entry in use reachable.
  pub buried-IsReachable : IsReachable files → IsReachable (put files r (buried files r))
  buried-IsReachable reach i owner' fd' g = elim (Bool-cases (i == r)) [
    | inl same ↦
        absurd
          (gone (subst (IsFile (put files r (buried files r)) owner' fd') (eq_of_test i r same) g))
    | inr other ↦
        let at =
          reach i owner' fd'
            (kept_file (put_other files r i (buried files r) (ne_of_test i r other)) g) in
        (at.0, at.1, at.2, λ j lt. not_free (probe owner' fd' j) (at.3 j lt))
  ]
    where
      tomb : (put files r (buried files r) r).status ≡ tombstone
      tomb = ap (λ (x : FileState). x.status) (put_same files r (buried files r))

      gone : {o d : ℕ} → IsFile (put files r (buried files r)) o d r → ⊥
      gone g = cc (tomb, g.in_use)

      kept_file :
          {j o d : ℕ}
          → put files r (buried files r) j ≡ files j
          → IsFile (put files r (buried files r)) o d j
          → IsFile files o d j
      kept_file kept g = record {
        in_use = ap (λ (x : FileState). x.status) (sym kept) ∙ g.in_use;
        same_owner = ap (λ (x : FileState). x.owner) (sym kept) ∙ g.same_owner;
        same_fd = ap (λ (x : FileState). x.fd) (sym kept) ∙ g.same_fd;
      }

      not_free : (j : ℕ) → (files j).status ≢ free → (put files r (buried files r) j).status ≢ free
      not_free j h = elim (Bool-cases (j == r)) [
        | inl same ↦ λ e.
            cc (tomb, ap (λ k. (put files r (buried files r) k).status) (eq_of_test j r same), e)
        | inr other ↦ λ e. h (
            sym (
              ap (λ (x : FileState). x.status)
                (put_other files r j (buried files r) (ne_of_test j r other)))
            ∙ e)
      ]
