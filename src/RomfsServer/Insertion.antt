-- ===== src/RomfsServer/Insertion.antt =====
-- The table of open files of usr/root/romfs_server.c: insertion.
use bradyp_os.Base.{
  ℕ, zero, suc, ◌+◌, ◌≤◌, ◌<◌, ◌≡◌, ◌≢◌, ◌⊎◌, inl, inr, refl, ap, sym, ◌∙◌, none, some, ◌==◌,
  Bool-cases, some_inj, no_result, eq_of_test, ne_of_test, arith,
}
use mathlib.Core.Path.{subst}
use bradyp_os.RomfsServer.{
  free, used, tombstone, FileState, Files, file_state_log, put, probe, find_from, insertion_from,
  find_vfs_file_state, find_vfs_file_state_insertion_point,
}
use bradyp_os.RomfsServer.Table.{IsFile, IsReachable, Round, round, find_hit, find_other}

pub put_same : (files : Files) (i : ℕ) (f : FileState) → put files i f i ≡ f
put_same files i f = ground arith

pub put_other : (files : Files) (i j : ℕ) (f : FileState) → j ≢ i → put files i f j ≡ files j
put_other files i j f h = ground (arith, h)

module _ (files : Files) (owner fd n i : ℕ) where
  insert_free :
      ((files (probe owner fd i)).status ≡ free) ⊎ ((files (probe owner fd i)).status ≡ tombstone)
      → insertion_from files owner fd (suc n) i ≡ some (probe owner fd i)
  unfolding insertion_from
  insert_free (inl h) = ground (arith, h)
  insert_free (inr h) = ground (arith, h)

  insert_hit :
      IsFile files owner fd (probe owner fd i)
      → insertion_from files owner fd (suc n) i ≡ some (probe owner fd i)
  unfolding insertion_from
  insert_hit h = ground (arith, h.in_use, h.same_owner, h.same_fd)

  insert_other :
      (files (probe owner fd i)).status ≡ used
      → ((files (probe owner fd i)).owner ≢ owner) ⊎ ((files (probe owner fd i)).fd ≢ fd)
      → insertion_from files owner fd (suc n) i ≡ insertion_from files owner fd n (i + 1)
  unfolding insertion_from
  insert_other h d = ground (arith, h, d)

module _ (files : Files) (owner fd : ℕ) where
  no_round : (i : ℕ) → insertion_from files owner fd zero i ≡ none
  unfolding insertion_from
  no_round i = refl

  -- The insertion point is in one of the rounds, and every round before is at an entry in use.
  insertion_from-round :
      (n i r : ℕ)
      → insertion_from files owner fd n i ≡ some r
      → (k : ℕ) × (i ≤ k)
        × (k < i + n)
        × (probe owner fd k ≡ r)
        × ((j : ℕ) → i ≤ j → j < k → (files (probe owner fd j)).status ≡ used)
  insertion_from-round zero i r h = no_result (sym (no_round i) ∙ h)
  insertion_from-round (suc n) i r h = elim (round files owner fd (probe owner fd i)) [
    | Round.at_free e ↦ here (insert_free files owner fd n i (inl e))
    | Round.at_file f ↦ here (insert_hit files owner fd n i f)
    | Round.at_tombstone e ↦ here (insert_free files owner fd n i (inr e))
    | Round.at_other e d ↦
        let rest =
          insertion_from-round n (i + 1) r (sym (insert_other files owner fd n i e d) ∙ h) in
        (
          rest.0,
          omega (arith, rest.1),
          omega (arith, rest.2),
          rest.3,
          λ j le lt. elim (Bool-cases (i == j)) [
            | inl same ↦
                subst (λ x. (files (probe owner fd x)).status ≡ used) (eq_of_test i j same) e
            | inr other ↦ rest.4 j (omega (arith, le, ne_of_test i j other)) lt
          ],
        )
  ]
    where
      here :
          insertion_from files owner fd (suc n) i ≡ some (probe owner fd i)
          → (k : ℕ) × (i ≤ k)
            × (k < i + suc n)
            × (probe owner fd k ≡ r)
            × ((j : ℕ) → i ≤ j → j < k → (files (probe owner fd j)).status ≡ used)
      here e = (
        i,
        omega arith,
        omega arith,
        some_inj (sym e ∙ h),
        λ j le lt. absurd (omega (arith, le, lt)),
      )

  module _ (r : ℕ) (f : FileState) (u : f.status ≡ used) (o : f.owner ≡ owner) (d : f.fd ≡ fd) where
    pub put-IsFile : IsFile (put files r f) owner fd r
    put-IsFile =
        let same = put_same files r f in
        record {
          in_use = ap (λ (g : FileState). g.status) same ∙ u;
          same_owner = ap (λ (g : FileState). g.owner) same ∙ o;
          same_fd = ap (λ (g : FileState). g.fd) same ∙ d;
        }

    find_put_other :
        (n i : ℕ)
        → (files (probe owner fd i)).status ≡ used
        → ((files (probe owner fd i)).owner ≢ owner) ⊎ ((files (probe owner fd i)).fd ≢ fd)
        → find_from (put files r f) owner fd n (i + 1) ≡ some r
        → find_from (put files r f) owner fd (suc n) i ≡ some r
    find_put_other n i e ne rest = elim (Bool-cases (probe owner fd i == r)) [
      | inl same ↦
          let at : probe owner fd i ≡ r = eq_of_test _ _ same in
          find_hit (put files r f) owner fd n i
            (subst (IsFile (put files r f) owner fd) (sym at) put-IsFile)
          ∙ ap some at
      | inr other ↦
          let kept = put_other files r (probe owner fd i) f (ne_of_test _ _ other) in
          find_other (put files r f) owner fd n i (ap (λ (g : FileState). g.status) kept ∙ e)
            (subst (λ (g : FileState). (g.owner ≢ owner) ⊎ (g.fd ≢ fd)) (sym kept) ne)
          ∙ rest
    ]

    insertion_from-find :
        (n i : ℕ)
        → insertion_from files owner fd n i ≡ some r
        → find_from (put files r f) owner fd n i ≡ some r
    insertion_from-find zero i h = no_result (sym (no_round i) ∙ h)
    insertion_from-find (suc n) i h = elim (round files owner fd (probe owner fd i)) [
      | Round.at_free e ↦ here (insert_free files owner fd n i (inl e))
      | Round.at_file g ↦ here (insert_hit files owner fd n i g)
      | Round.at_tombstone e ↦ here (insert_free files owner fd n i (inr e))
      | Round.at_other e ne ↦
          find_put_other n i e ne
            (insertion_from-find n (i + 1) (sym (insert_other files owner fd n i e ne) ∙ h))
    ]
      where
        here :
            insertion_from files owner fd (suc n) i ≡ some (probe owner fd i)
            → find_from (put files r f) owner fd (suc n) i ≡ some r
        here e =
            let at : probe owner fd i ≡ r = some_inj (sym e ∙ h) in
            find_hit (put files r f) owner fd n i
              (subst (IsFile (put files r f) owner fd) (sym at) put-IsFile)
            ∙ ap some at

    put_not_free : (j : ℕ) → (files j).status ≢ free → (put files r f j).status ≢ free
    put_not_free j h = elim (Bool-cases (j == r)) [
      | inl same ↦ λ e. ground (arith, same, u, e)
      | inr other ↦ λ e. h (
          sym (ap (λ (g : FileState). g.status) (put_other files r j f (ne_of_test j r other))) ∙ e)
    ]

    pub IsFile-old :
        (j owner' fd' : ℕ) → j ≢ r → IsFile (put files r f) owner' fd' j → IsFile files owner' fd' j
    IsFile-old j owner' fd' ne file =
        let kept = sym (put_other files r j f ne) in
        record {
          in_use = ap (λ (g : FileState). g.status) kept ∙ file.in_use;
          same_owner = ap (λ (g : FileState). g.owner) kept ∙ file.same_owner;
          same_fd = ap (λ (g : FileState). g.fd) kept ∙ file.same_fd;
        }

    IsFile-new :
        (owner' fd' : ℕ) → IsFile (put files r f) owner' fd' r → (owner' ≡ owner) × (fd' ≡ fd)
    IsFile-new owner' fd' file =
        let same = put_same files r f in
        (
          sym file.same_owner ∙ ap (λ (g : FileState). g.owner) same ∙ o,
          sym file.same_fd ∙ ap (λ (g : FileState). g.fd) same ∙ d,
        )

    used_not_free : (j : ℕ) → (files j).status ≡ used → (files j).status ≢ free
    used_not_free j e = λ h. cc

    new_round :
        (owner' fd' : ℕ)
        → find_vfs_file_state_insertion_point files owner fd ≡ some r
        → IsFile (put files r f) owner' fd' r
        → (k : ℕ) × (k < file_state_log)
          × (probe owner' fd' k ≡ r)
          × ((j : ℕ) → j < k → (put files r f (probe owner' fd' j)).status ≢ free)
    unfolding find_vfs_file_state_insertion_point
    new_round owner' fd' h file =
        let at = insertion_from-round file_state_log 0 r h in
        let (eo, ed) = IsFile-new owner' fd' file in
        rw (eo, ed)
          (
            at.0,
            omega (arith, at.2),
            at.3,
            λ j lt.
                put_not_free (probe owner fd j)
                  (used_not_free (probe owner fd j) (at.4 j (omega arith) lt)),
          )

    -- What is put at the insertion point keeps every entry in use reachable.
    pub insert-IsReachable :
        IsReachable files
        → find_vfs_file_state_insertion_point files owner fd ≡ some r
        → IsReachable (put files r f)
    insert-IsReachable reach h i owner' fd' file = elim (Bool-cases (i == r)) [
      | inl same ↦
          let e : i ≡ r = eq_of_test i r same in
          let at = new_round owner' fd' h (subst (IsFile (put files r f) owner' fd') e file) in
          (at.0, at.1, at.2 ∙ sym e, at.3)
      | inr other ↦
          let at = reach i owner' fd' (IsFile-old i owner' fd' (ne_of_test i r other) file) in
          (at.0, at.1, at.2, λ j lt. put_not_free (probe owner' fd' j) (at.3 j lt))
    ]

    -- The lookup finds the file that is put at its insertion point.
    pub insert-find :
        find_vfs_file_state_insertion_point files owner fd ≡ some r
        → find_vfs_file_state (put files r f) owner fd ≡ some r
    unfolding find_vfs_file_state_insertion_point find_vfs_file_state
    insert-find h = insertion_from-find file_state_log 0 h
