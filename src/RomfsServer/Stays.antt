-- ===== src/RomfsServer/Stays.antt =====
-- The table of open files of usr/root/romfs_server.c: what an insertion or a deletion leaves of the other
-- files.
use bradyp_os.Base.{
  ℕ, zero, suc, ◌+◌, ◌<◌, ◌≡◌, ◌≢◌, ◌⊎◌, inl, inr, refl, ap, sym, ◌∙◌, none, ◌==◌, Bool-cases,
  Option-cases, eq_of_test, ne_of_test, three_way,
}
use mathlib.Core.Path.{subst}
use bradyp_os.RomfsServer.{free, used, tombstone, FileState, Files, put, probe, find_from}
use bradyp_os.RomfsServer.Table.{
  IsFile, IsReachable, find_tombstone, find_other, find_from-IsFile, zero_rounds,
}
use bradyp_os.RomfsServer.Deletion.{buried}
use bradyp_os.RomfsServer.Insertion.{put_same, put_other}

-- Two different files of a table.
abbrev pub Differ : (owner fd owner' fd' : ℕ) → Type 0
Differ owner fd owner' fd' = (owner ≢ owner') ⊎ (fd ≢ fd')

-- The entry does not stop the search for the file.
abbrev pub IsPassed : FileState → (owner fd : ℕ) → Type 0
IsPassed f owner fd = (f.status ≡ tombstone) ⊎ ((f.status ≡ used) × Differ f.owner f.fd owner fd)

pub passes :
    (files : Files) (owner fd n i : ℕ)
    → IsPassed (files (probe owner fd i)) owner fd
    → find_from files owner fd (suc n) i ≡ find_from files owner fd n (i + 1)
passes files owner fd n i (inl t) = find_tombstone files owner fd n i t
passes files owner fd n i (inr (u, d)) = find_other files owner fd n i u d

module _ (files files' : Files) (owner fd n i : ℕ)
    (rest : find_from files' owner fd n (i + 1) ≡ find_from files owner fd n (i + 1)) where
  pub find_same_entry :
      files' (probe owner fd i) ≡ files (probe owner fd i)
      → find_from files' owner fd (suc n) i ≡ find_from files owner fd (suc n) i
  unfolding find_from
  find_same_entry e = rw (e, rest) refl

  pub find_passes :
      IsPassed (files' (probe owner fd i)) owner fd
      → IsPassed (files (probe owner fd i)) owner fd
      → find_from files' owner fd (suc n) i ≡ find_from files owner fd (suc n) i
  find_passes a b = passes files' owner fd n i a ∙ rest ∙ sym (passes files owner fd n i b)

pub find_zero :
    (files files' : Files) (owner fd i : ℕ)
    → find_from files' owner fd zero i ≡ find_from files owner fd zero i
find_zero files files' owner fd i =
    sym (zero_rounds files' owner fd i) ∙ zero_rounds files owner fd i

module _ (files : Files) (owner fd r : ℕ) (file : IsFile files owner fd r) where
  is_passed : (owner' fd' : ℕ) → Differ owner fd owner' fd' → IsPassed (files r) owner' fd'
  is_passed owner' fd' ne = inr (
    file.in_use,
    subst (λ o. Differ o (files r).fd owner' fd') (sym file.same_owner)
        (subst (λ d. Differ owner d owner' fd') (sym file.same_fd) ne),
  )

  buried-IsPassed : (owner' fd' : ℕ) → IsPassed (put files r (buried files r) r) owner' fd'
  buried-IsPassed owner' fd' =
      inl (ap (λ (g : FileState). g.status) (put_same files r (buried files r)))

  pub find_from-buried :
      (owner' fd' n i : ℕ)
      → Differ owner fd owner' fd'
      → find_from (put files r (buried files r)) owner' fd' n i ≡ find_from files owner' fd' n i
  find_from-buried owner' fd' zero i ne =
      find_zero files (put files r (buried files r)) owner' fd' i
  find_from-buried owner' fd' (suc n) i ne =
      let rest = find_from-buried owner' fd' n (i + 1) ne in
      elim (Bool-cases (probe owner' fd' i == r)) [
        | inl same ↦
            let at : r ≡ probe owner' fd' i = sym (eq_of_test _ _ same) in
            find_passes files (put files r (buried files r)) owner' fd' n i rest
              (subst (λ j. IsPassed (put files r (buried files r) j) owner' fd') at
                (buried-IsPassed owner' fd'))
              (subst (λ j. IsPassed (files j) owner' fd') at (is_passed owner' fd' ne))
        | inr other ↦
            find_same_entry files (put files r (buried files r)) owner' fd' n i rest
              (put_other files r (probe owner' fd' i) (buried files r) (ne_of_test _ _ other))
      ]

-- Behind a free entry of its rounds there is no file that the search could miss.
pub behind_free :
    (files : Files) (owner fd n i : ℕ)
    → IsReachable files
    → (files (probe owner fd i)).status ≡ free
    → ((j : ℕ) → j < i → IsFile files owner fd (probe owner fd j) → ⊥)
    → find_from files owner fd n (i + 1) ≡ none
behind_free files owner fd n i reach e earlier =
    elim (Option-cases (find_from files owner fd n (i + 1))) [
      | inl nothing ↦ nothing
      | inr (q, found) ↦ absurd (missed q (find_from-IsFile files owner fd n (i + 1) q found))
    ]
  where
    missed : (q : ℕ) → IsFile files owner fd q → ⊥
    missed q f =
        let at = reach q owner fd f in
        elim (three_way at.0 i) [
          | inl before ↦ earlier at.0 before (subst (IsFile files owner fd) (sym at.2) f)
          | inr (inl same) ↦
              let here : probe owner fd i ≡ q = subst (λ k. probe owner fd k ≡ q) same at.2 in
              absurd (cc (ap (λ k. (files k).status) here, e, f.in_use))
          | inr (inr behind) ↦ at.3 i behind e
        ]
