-- ===== src/Romfs/Lookup.antt =====
-- The search for a file of a directory in lib/romfs/romfs.c.
use bradyp_os.Base.{
  ℕ, zero, suc, ◌<◌, ◌≡◌, ◌≢◌, ◌⊎◌, inl, inr, refl, ap, ◌∙◌, Option, some, List, [], ◌∷◌, ◌==◌,
  Bool-cases, true, false, eq_of_test, ne_of_test, test_of_ne, arith,
}
use bradyp_os.Base.Array.{Array}
use bradyp_os.Base.Lists.{length}
use bradyp_os.Romfs.{
  FileInfo, ft_directory, invalid_file, romfs_file_info, romfs_next_file, find_file, romfs_openat,
  strcmp,
}
use bradyp_os.Romfs.Text.{Spells, strcmp-equal}

-- Where a file stands, and its name.
abbrev pub Entry : Type 0
Entry = ℕ × List ℕ

-- The first entry of the name, or no file.
abbrev pub IsFirst : (name : List ℕ) → List Entry → ℕ → Type 0
IsFirst name [] r = r ≡ invalid_file
IsFirst name (e ∷ es) r = ((e.1 ≡ name) × (r ≡ e.0)) ⊎ ((e.1 ≢ name) × IsFirst name es r)

module _ (map : (offset size : ℕ) → Option Array) where
  -- From `file` on the headers lead through the entries, and each name ends within its bytes.
  abbrev pub IsListing : (file : ℕ) → List Entry → Type 0
  IsListing file [] = file ≡ invalid_file
  IsListing file ((o, text) ∷ es) =
      (file ≡ o)
      × (o ≢ invalid_file)
      × (info : FileInfo) × (romfs_file_info map o ≡ some info)
      × Spells info.name text
      × IsListing (romfs_next_file map o) es

  module _ (fuel o : ℕ) (name : List ℕ) (info : FileInfo) (x y : ℕ) (file : o ≢ invalid_file)
      (header : romfs_file_info map o ≡ some info)
      (compared : strcmp info.name name ≡ some (x, y)) where
    find_hit : (x == y) ≡ true → find_file map (suc fuel) o name ≡ some o
    unfolding find_file
    find_hit same = rw (test_of_ne o invalid_file file, header, compared, same) refl

    find_miss :
        (x == y) ≡ false
        → find_file map (suc fuel) o name ≡ find_file map fuel (romfs_next_file map o) name
    unfolding find_file
    find_miss other = rw (test_of_ne o invalid_file file, header, compared, other) refl

  find_end :
      (fuel : ℕ) (name : List ℕ) → find_file map (suc fuel) invalid_file name ≡ some invalid_file
  unfolding find_file
  find_end fuel name = refl

  find_file-IsFirst :
      (fuel file : ℕ) (name : List ℕ) (es : List Entry) {text : List ℕ}
      → IsListing file es
      → Spells name text
      → length es < fuel
      → (r : ℕ) × (find_file map fuel file name ≡ some r) × IsFirst text es r
  find_file-IsFirst zero file name es l s f = absurd (omega arith)
  find_file-IsFirst (suc fuel) file name [] l s f =
      (invalid_file, ap (λ g. find_file map (suc fuel) g name) l ∙ find_end fuel name, refl)
  find_file-IsFirst (suc fuel) file name ((o, text') ∷ es) {text} l s f =
      let start = ap (λ g. find_file map (suc fuel) g name) l.0 in
      let (x, y, run, iff) = strcmp-equal l.2.name name l.4 s in
      let rest = find_file-IsFirst fuel (romfs_next_file map o) name es l.5 s (omega (arith, f)) in
      elim (Bool-cases (x == y)) [
        | inl same ↦ (
          o,
          start ∙ find_hit fuel o name l.2 x y l.1 l.3 run same,
          inl (iff.0 (eq_of_test x y same), refl),
        )
        | inr other ↦ (
          rest.0,
          start ∙ find_miss fuel o name l.2 x y l.1 l.3 run other ∙ rest.1,
          inr ((λ e. ne_of_test x y other (iff.1 e)), rest.2),
        )
      ]

  -- In a directory whose headers form a finite chain with names that end within their 16 bytes, under
  -- fuel beyond the number of its files, the search for a text ends with the offset of the first file of
  -- this name, or with no file where no name is the text.
  pub romfs_openat-IsFirst :
      (fuel file : ℕ) (name : List ℕ) (dir : FileInfo) (es : List Entry) {text : List ℕ}
      → romfs_file_info map file ≡ some dir
      → dir.type ≡ ft_directory
      → IsListing dir.info es
      → Spells name text
      → length es < fuel
      → (r : ℕ) × (romfs_openat map fuel file name ≡ some r) × IsFirst text es r
  unfolding romfs_openat
  romfs_openat-IsFirst fuel file name dir es i d l s f =
      let (r, run, first) = find_file-IsFirst fuel dir.info name es l s f in
      (r, ground (arith, i, d, run), first)
