-- ===== src/RomfsServer/Table.antt =====
-- The table of open files of usr/root/romfs_server.c: what its lookups find.
use bradyp_os.Base.{
  ℕ, zero, suc, ◌+◌, ◌≤◌, ◌<◌, ◌≡◌, ◌≢◌, ◌⊎◌, inl, inr, refl, ◌∙◌, none, some, ◌==◌, Bool-cases,
  some_inj, eq_of_test, ne_of_test, no_result, Option-cases, sym, arith,
}
use mathlib.Core.Path.{subst}
use bradyp_os.RomfsServer.{
  Status, free, used, tombstone, Files, file_state_count, file_state_log, probe, find_from,
  find_vfs_file_state,
}

-- The entry holds the file `fd` of the owner.
pub record IsFile (files : Files) (owner fd i : ℕ) : Type 0 where
  pub in_use : (files i).status ≡ used
  pub same_owner : (files i).owner ≡ owner
  pub same_fd : (files i).fd ≡ fd

-- An entry in use is found: it stands in one of the rounds of its file, and no round before is at a
-- free entry.
abbrev pub IsReachable : Files → Type 0
IsReachable files =
    (i owner fd : ℕ)
    → IsFile files owner fd i
    → (k : ℕ) × (k < file_state_log)
      × (probe owner fd k ≡ i)
      × ((j : ℕ) → j < k → (files (probe owner fd j)).status ≢ free)

pub probe-lt : (owner fd i : ℕ) → probe owner fd i < file_state_count
unfolding probe
probe-lt owner fd i = omega arith

-- What stands in a round: a free entry, the file, or another entry that is not free.
pub data Round (files : Files) (owner fd i : ℕ) : Type 0 where
  at_free : (files i).status ≡ free → Round files owner fd i
  at_file : IsFile files owner fd i → Round files owner fd i
  at_tombstone : (files i).status ≡ tombstone → Round files owner fd i
  at_other :
      (files i).status ≡ used
      → ((files i).owner ≢ owner) ⊎ ((files i).fd ≢ fd)
      → Round files owner fd i

Status-cases : (s : Status) → (s ≡ free) ⊎ (s ≡ used) ⊎ (s ≡ tombstone)
Status-cases free = inl refl
Status-cases used = inr (inl refl)
Status-cases tombstone = inr (inr refl)

pub round : (files : Files) (owner fd i : ℕ) → Round files owner fd i
round files owner fd i = elim (Status-cases (files i).status) [
  | inl e ↦ Round.at_free e
  | inr (inl e) ↦ elim (Bool-cases ((files i).owner == owner)) [
    | inl o ↦ elim (Bool-cases ((files i).fd == fd)) [
      | inl f ↦
          Round.at_file
            (record { in_use = e; same_owner = eq_of_test _ _ o; same_fd = eq_of_test _ _ f })
      | inr f ↦ Round.at_other e (inr (ne_of_test _ _ f))
    ]
    | inr o ↦ Round.at_other e (inl (ne_of_test _ _ o))
  ]
  | inr (inr e) ↦ Round.at_tombstone e
]

module _ (files : Files) (owner fd n i : ℕ) where
  pub find_free :
      (files (probe owner fd i)).status ≡ free → find_from files owner fd (suc n) i ≡ none
  unfolding find_from
  find_free h = ground (arith, h)

  pub find_hit :
      IsFile files owner fd (probe owner fd i)
      → find_from files owner fd (suc n) i ≡ some (probe owner fd i)
  unfolding find_from
  find_hit h = ground (arith, h.in_use, h.same_owner, h.same_fd)

  pub find_tombstone :
      (files (probe owner fd i)).status ≡ tombstone
      → find_from files owner fd (suc n) i ≡ find_from files owner fd n (i + 1)
  unfolding find_from
  find_tombstone h = ground (arith, h)

  pub find_other :
      (files (probe owner fd i)).status ≡ used
      → ((files (probe owner fd i)).owner ≢ owner) ⊎ ((files (probe owner fd i)).fd ≢ fd)
      → find_from files owner fd (suc n) i ≡ find_from files owner fd n (i + 1)
  unfolding find_from
  find_other h d = ground (arith, h, d)

module _ (files : Files) (owner fd : ℕ) where
  pub zero_rounds : (i : ℕ) → none ≡ find_from files owner fd zero i
  unfolding find_from
  zero_rounds i = refl

  pub find_from-IsFile :
      (n i r : ℕ) → find_from files owner fd n i ≡ some r → IsFile files owner fd r
  find_from-IsFile zero i r h = no_result (zero_rounds i ∙ h)
  find_from-IsFile (suc n) i r h = elim (round files owner fd (probe owner fd i)) [
    | Round.at_free e ↦ no_result (sym (find_free files owner fd n i e) ∙ h)
    | Round.at_file f ↦
        subst (IsFile files owner fd) (some_inj (sym (find_hit files owner fd n i f) ∙ h)) f
    | Round.at_tombstone e ↦
        find_from-IsFile n (i + 1) r (sym (find_tombstone files owner fd n i e) ∙ h)
    | Round.at_other e d ↦
        find_from-IsFile n (i + 1) r (sym (find_other files owner fd n i e d) ∙ h)
  ]

  -- The search goes through the rounds before that of the file.
  find_from_total :
      (n i k : ℕ)
      → i ≤ k
      → k < i + n
      → IsFile files owner fd (probe owner fd k)
      → ((j : ℕ) → j < k → (files (probe owner fd j)).status ≢ free)
      → (r : ℕ) × (find_from files owner fd n i ≡ some r)
  find_from_total zero i k le lt f before = absurd (omega (arith, le, lt))
  find_from_total (suc n) i k le lt f before = elim (Bool-cases (i == k)) [
    | inl same ↦
        let e : k ≡ i = sym (eq_of_test i k same) in
        (
          probe owner fd i,
          find_hit files owner fd n i (subst (λ j. IsFile files owner fd (probe owner fd j)) e f),
        )
    | inr other ↦
        let later : i + 1 ≤ k = omega (arith, le, ne_of_test i k other) in
        let rest = find_from_total n (i + 1) k later (omega (arith, lt)) f before in
        elim (round files owner fd (probe owner fd i)) [
          | Round.at_free e ↦ absurd (before i (omega (arith, later)) e)
          | Round.at_file h ↦ (probe owner fd i, find_hit files owner fd n i h)
          | Round.at_tombstone e ↦ (rest.0, find_tombstone files owner fd n i e ∙ rest.1)
          | Round.at_other e d ↦ (rest.0, find_other files owner fd n i e d ∙ rest.1)
        ]
  ]

  -- In a table whose entries in use are all reachable, the lookup finds an entry in use with this owner
  -- and file identifier, and finds nothing only if there is none.
  pub find_vfs_file_state-IsFile :
      IsReachable files
      → ((r : ℕ) × (find_vfs_file_state files owner fd ≡ some r) × IsFile files owner fd r)
        ⊎ ((find_vfs_file_state files owner fd ≡ none) × ((i : ℕ) → IsFile files owner fd i → ⊥))
  unfolding find_vfs_file_state
  find_vfs_file_state-IsFile reach =
      elim (Option-cases (find_from files owner fd file_state_log 0)) [
        | inl nothing ↦ inr (nothing, λ i f. no_result (sym nothing ∙ (total i f).1))
        | inr (r, found) ↦ inl (r, found, find_from-IsFile file_state_log 0 r found)
      ]
    where
      total :
          (i : ℕ)
          → IsFile files owner fd i
          → (r : ℕ) × (find_from files owner fd file_state_log 0 ≡ some r)
      total i f =
          let at = reach i owner fd f in
          find_from_total file_state_log 0 at.0 (omega arith) (omega (arith, at.1))
            (subst (IsFile files owner fd) (sym at.2) f) at.3
