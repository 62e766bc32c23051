-- ===== src/RootMemory/Grants.antt =====
-- Memory that usr/root/memory.c grants to a client and takes back.
use bradyp_os.Base.{ℕ, ◌+◌, ◌*◌, ◌^◌, ◌≤◌, ◌≡◌, ◌⊎◌, List, [], ◌∷◌}
use bradyp_os.Memory.Tag
use bradyp_os.Pages.{Pages}
use bradyp_os.Pages.Ranges.{Range, total, Clear}
use bradyp_os.Pages.FirstFit.{AreShort, Within}
use bradyp_os.Pages.Refines.{Holds}
use bradyp_os.Fpage
use bradyp_os.Fpage.{Fpage}
use bradyp_os.Fpage.Laws.{IsWord}
use bradyp_os.RootMemory.{Root, create_ipc_alloc_error, enomem}

-- The pages have numbers that fit the field of a flexpage.
abbrev pub InSpace : List Range → Type 0
InSpace [] = Unit
InSpace ((b, m) ∷ xs) = (b + m ≤ 2 ^ 22) × InSpace xs

-- The flexpage for a page, as the allocation makes it.
granted : (mem : ℕ) → (request : ℕ) → Fpage
unfolding Fpage.of_raw Fpage.add_rights Fpage.fpage_log2
granted mem request =
    Fpage.add_rights (Fpage.fpage_log2 (mem * 512) ((Fpage.of_raw request).s + 9))
      (Fpage.rights (Fpage.of_raw request))

-- The answer to a request for memory: ENOMEM and no change, where every free range is too short; or the
-- grant of a flexpage of the requested size field at the first of `n` pages that were free, and are not
-- free any more.
abbrev pub IsGranted : Root → List Range → (n : ℕ) → Root → Type 0
IsGranted s xs n s' =
    (AreShort n xs × (s' ≡ create_ipc_alloc_error s enomem))
    ⊎ ((f : Fpage) × (ys : List Range) × (Fpage.grant_item_snd_fpage (s'.mrs 1, s'.mrs 2) ≡ f)
        × IsWord f
        × (f.s ≡ (Fpage.of_raw (s.mrs 1)).s)
        × Holds s'.pages ys
        × Within f.b n xs
        × Clear f.b n ys
        × (total ys + n ≡ total xs))
