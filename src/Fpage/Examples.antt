-- ===== src/Fpage/Examples.antt =====
-- The theorems on flexpages at concrete inputs.
use bradyp_os.Base.{ℕ, ◌+◌, ◌*◌, ◌^◌, ◌≤◌, ◌<◌, ◌≡◌, ◌⊎◌, refl, some, arith}
use bradyp_os.Fpage.{Fpage, raw, of_raw, grant_item, grant_item_snd_fpage, size, fpage}
use bradyp_os.Fpage.Laws.{size-fpage_wrong}

abbrev stack_page : Fpage
stack_page = record { perm = 6; s = 2; b = 0x100088 }

stack_page_back :
    (of_raw (raw stack_page) ≡ stack_page)
    × (grant_item_snd_fpage (grant_item stack_page (7 * 512)) ≡ stack_page)
unfolding of_raw raw grant_item grant_item_snd_fpage
stack_page_back = (refl, refl)

-- A size of 1024 has 21 leading zeros.
size-fpage_wrong_example :
    ((1024 < 2 ^ 27) × (32 ≤ (fpage (λ v. 21) 0x20000000 1024).s + 9))
    ⊎ ((2 ^ 27 ≤ 1024)
        × ((n : ℕ) × (size (fpage (λ v. 21) 0x20000000 1024) ≡ some n) × (n * 2 ^ 18 ≤ 1024)))
size-fpage_wrong_example =
    size-fpage_wrong (λ v. 21) 0x20000000 1024 (omega arith, omega arith, omega arith) (omega arith)

-- The size field of a page of 1024 bytes is 47, where 1 is meant.
small_field :
    ((fpage (λ v. 21) 0x20000000 1024).s ≡ 47)
    × (size (record { perm = 0; s = 1; b = 0 }) ≡ some 1024)
unfolding fpage size
small_field = (refl, refl)
