-- ===== src/RootMemory/Examples.antt =====
-- The memory of the root server with one executable that ends at 0x20012345.
use bradyp_os.Base.{ℕ, ◌+◌, ◌*◌, ◌^◌, ◌≡◌, refl, inl, none, some, List, [], ◌∷◌, arith}
use bradyp_os.Memory.Tag
use bradyp_os.Pages.{Pages, init_linked_list_alloc_state}
use bradyp_os.Pages.Ranges.{Range, total}
use bradyp_os.Pages.Refines.{Holds, init_linked_list_alloc_state-Holds}
use bradyp_os.Fpage
use bradyp_os.Fpage.{Fpage}
use bradyp_os.RootMemory.{
  BootRecord, Root, sram_end, find_heap_start, init_memory_management, handle_ipc_free,
}
use bradyp_os.RootMemory.HeapStart.{AllEndBefore, init_memory_management-Holds}
use bradyp_os.RootMemory.Returns.{handle_ipc_free_loses}

abbrev records : List BootRecord
records =
    record { type = 1; data_vstart = 0; data_size = 0; bss_vstart = 0; bss_size = 0 }
    ∷ record {
      type = 2;
      data_vstart = 0x20010000;
      data_size = 0x100;
      bss_vstart = 0x20012000;
      bss_size = 0x345;
    }
    ∷ []

abbrev blank : Pages
blank = record {
  start = 0;
  page_count = 0;
  first_free_item = none;
  nodes = λ _. record { num_pages = 0; next = none; prev = none };
}

heap_start : find_heap_start records ≡ 0x20012400
unfolding find_heap_start
heap_start = refl

init_memory_management-Holds_example :
    (p n : ℕ) × Holds (init_memory_management records blank) ((p, n) ∷ [])
    × AllEndBefore (p * 512) records
    × (p * 512 + n * 512 ≡ sram_end)
init_memory_management-Holds_example =
    init_memory_management-Holds records blank
      ((λ h. absurd (omega (arith, h))), ((λ _. (omega arith, omega arith)), tt))

-- 2048 free pages, and a client asks for two readable pages.
abbrev start_page : ℕ
start_page = 0x100000

abbrev request : Fpage
request = record { perm = 4; s = 1; b = 0 }

abbrev asked : Root
asked = record { pages = init_linked_list_alloc_state blank start_page 2048; mrs = λ _. 20 }

abbrev range : List Range
range = (start_page, 2048) ∷ []

-- The grant of pages from 0x100000 on, which leaves 1024 pages.
abbrev grant : Fpage
grant = record { perm = 4; s = 1; b = start_page }

abbrev back : Root
back = record {
  pages = init_linked_list_alloc_state blank 0x100400 1024;
  mrs = λ _. 4 + 16 + 1024 * start_page;
}

handle_ipc_free_loses_example :
    (s' : Root) × (zs : List Range) × (handle_ipc_free (λ _ mrs. mrs) back (Tag.make 2 0 0 0x41)
      ≡ some s')
    × Holds s'.pages zs
    × (total zs + 2 ^ 10 ≡ 2048 + 2 ^ 1)
unfolding Fpage.raw
handle_ipc_free_loses_example =
    handle_ipc_free_loses (λ _ mrs. mrs) back (Tag.make 2 0 0 0x41) grant refl refl
      (record { perm_fits = omega arith; s_fits = omega arith; b_fits = omega arith }) refl
      (omega arith) range ((0x100400, 1024) ∷ [])
      (init_linked_list_alloc_state-Holds blank 0x100400 1024 (omega arith)) (inl (omega arith), tt)
      refl
