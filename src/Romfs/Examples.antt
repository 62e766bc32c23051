-- ===== src/Romfs/Examples.antt =====
-- A volume with one directory of two files, `a` and `b`.
use bradyp_os.Base.{
  ℕ, ◌+◌, ◌≡◌, ◌↔◌, refl, true, false, ◌≢◌, Option, some, List, [], ◌∷◌, ◌==◌, if◌then◌else◌, arith,
}
use bradyp_os.Base.Array.{Array}
use bradyp_os.Romfs.{
  FileInfo, romfs_file_info, romfs_next_file, romfs_openat, find_file, strcmp, is_valid_romfs,
}
use bradyp_os.Romfs.Text.{Spells, strcmp-equal}
use bradyp_os.Romfs.Lookup.{Entry, IsFirst, IsListing, romfs_openat-IsFirst}

-- The directory stands at 32 and leads to 64, this file to 128.
abbrev volume : Array
volume i =
    if i == 35
    then 9
    else if i == 39
    then 64
    else if i == 67
    then 128 + 2
    else if i == 80
    then b'a'
    else if i == 131
    then 2
    else if i == 144
    then b'b'
    else 0

abbrev whole : (offset size : ℕ) → Option Array
whole offset size = some (λ i. volume (offset + i))

abbrev text_b : List ℕ
text_b = b'b' ∷ 0 ∷ 7 ∷ []

open_b : romfs_openat whole 3 32 text_b ≡ some 128
unfolding romfs_openat find_file romfs_file_info romfs_next_file strcmp
open_b = refl

open_no_directory : romfs_openat whole 3 64 text_b ≡ some 0
unfolding romfs_openat find_file romfs_file_info romfs_next_file strcmp
open_no_directory = refl

not_valid : is_valid_romfs whole ≡ false
unfolding is_valid_romfs
not_valid = refl

-- A name of 16 characters has no end within its bytes.
abbrev zeros : List ℕ
zeros = 0 ∷ 0 ∷ 0 ∷ 0 ∷ 0 ∷ 0 ∷ 0 ∷ 0 ∷ 0 ∷ 0 ∷ 0 ∷ 0 ∷ 0 ∷ 0 ∷ []

abbrev spelled : (c : ℕ) → List ℕ
spelled c = c ∷ 0 ∷ zeros

abbrev directory : FileInfo
directory = record { type = 1; executable = true; info = 64; size = 0; name = 0 ∷ 0 ∷ zeros }

abbrev file : (c : ℕ) → FileInfo
file c = record { type = 2; executable = false; info = 0; size = 0; name = spelled c }

abbrev entries : List Entry
entries = (64, b'a' ∷ []) ∷ (128, b'b' ∷ []) ∷ []

spelled_lem : (c : ℕ) → c ≢ 0 → Spells (spelled c) (c ∷ [])
spelled_lem c h = record { behind = zeros; plain = (h, tt); written = refl }

entries-IsListing : IsListing whole 64 entries
unfolding romfs_file_info romfs_next_file
entries-IsListing = (
  refl,
  (λ h. cc),
  file b'a',
  refl,
  spelled_lem b'a' (λ h. cc),
  (refl, (λ h. cc), file b'b', refl, spelled_lem b'b' (λ h. cc), refl),
)

romfs_openat-IsFirst_example :
    (r : ℕ) × (romfs_openat whole 3 32 text_b ≡ some r) × IsFirst (b'b' ∷ []) entries r
unfolding romfs_file_info
romfs_openat-IsFirst_example =
    romfs_openat-IsFirst whole 3 32 text_b directory entries refl refl entries-IsListing
      (record { behind = 7 ∷ []; plain = ((λ h. cc), tt); written = refl }) (omega arith)

abbrev only_a : List ℕ
only_a = b'a' ∷ []

abbrev only_b : List ℕ
only_b = b'b' ∷ []

strcmp-equal_example :
    (x y : ℕ) × (strcmp text_b (spelled b'a') ≡ some (x, y)) × ((x ≡ y) ↔ (only_b ≡ only_a))
strcmp-equal_example =
    strcmp-equal text_b (spelled b'a')
      (record { behind = 7 ∷ []; plain = ((λ h. cc), tt); written = refl })
      (spelled_lem b'a' (λ h. cc))
