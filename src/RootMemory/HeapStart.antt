-- ===== src/RootMemory/HeapStart.antt =====
-- The heap that usr/root/memory.c starts with, behind what the boot loader has put into memory.
use bradyp_os.Base.{
  ℕ, ◌+◌, ◌-◌, ◌*◌, ◌/◌, ◌%◌, ◌^◌, ◌≤◌, ◌≡◌, List, [], ◌∷◌, ◌==◌, Bool-cases, inl, inr, eq_of_test,
  arith,
}
use bradyp_os.Pages.{Pages}
use bradyp_os.Pages.Refines.{Holds, init_linked_list_alloc_state-Holds}
use bradyp_os.RootMemory.{
  BootRecord, boot_info_exe, sram_end, align_to_page, visit, highest_address, find_heap_start,
  init_memory_management,
}

-- The data and the bss of an executable end at or before the address.
abbrev pub EndsBefore : ℕ → BootRecord → Type 0
EndsBefore a r =
    r.type ≡ boot_info_exe
    → (r.data_vstart + r.data_size) % 2 ^ 32 ≤ a × (r.bss_vstart + r.bss_size) % 2 ^ 32 ≤ a

abbrev pub AllEndBefore : ℕ → List BootRecord → Type 0
AllEndBefore a [] = Unit
AllEndBefore a (r ∷ rs) = EndsBefore a r × AllEndBefore a rs

visit-le : (h a : ℕ) (r : BootRecord) → h ≤ a → EndsBefore a r → visit h r ≤ a
unfolding visit
visit-le h a r le b = elim (Bool-cases (r.type == boot_info_exe)) [
  | inl exe ↦ let ends = b (eq_of_test _ _ exe) in rw exe (ground (arith, ends.0, ends.1))
  | inr other ↦ rw other le
]

visit_covers : (h a : ℕ) (r : BootRecord) → visit h r ≤ a → h ≤ a × EndsBefore a r
unfolding visit
visit_covers h a r le = (ground arith, λ exe. ground (arith, exe))

highest-le : (rs : List BootRecord) (h a : ℕ) → h ≤ a → AllEndBefore a rs → highest_address rs h ≤ a
unfolding highest_address
highest-le [] h a le b = le
highest-le (r ∷ rs) h a le b = highest-le rs (visit h r) a (visit-le h a r le b.0) b.1

highest_covers :
    (rs : List BootRecord) (h a : ℕ) → highest_address rs h ≤ a → h ≤ a × AllEndBefore a rs
unfolding highest_address
highest_covers [] h a le = (le, tt)
highest_covers (r ∷ rs) h a le =
    let rest = highest_covers rs (visit h r) a le in
    let here = visit_covers h a r rest.0 in (here.0, (here.1, rest.1))

align_bounds :
    (a : ℕ)
    → a ≤ sram_end - 512
    → (a ≤ align_to_page a)
      × (align_to_page a ≤ sram_end - 512)
      × (align_to_page a / 512 * 512 ≡ align_to_page a)
unfolding align_to_page
align_bounds a h = omega arith

-- The free memory at the start. Where every executable of the boot information ends at least a page
-- before the end of the SRAM, the allocator has one free range of whole pages, which begins behind the
-- data and the bss of every executable and ends with the SRAM.
pub init_memory_management-Holds :
    (records : List BootRecord) (s : Pages)
    → AllEndBefore (sram_end - 512) records
    → (p n : ℕ) × Holds (init_memory_management records s) ((p, n) ∷ [])
      × AllEndBefore (p * 512) records
      × (p * 512 + n * 512 ≡ sram_end)
unfolding init_memory_management
init_memory_management-Holds records s b =
    let high = highest_address records 0 in
    let bounds = align_bounds high (highest-le records 0 (sram_end - 512) (omega arith) b) in
    let start = find_heap_start records in
    let n = (sram_end + 2 ^ 32 - start) % 2 ^ 32 / 512 in
    (
      start / 512,
      n,
      init_linked_list_alloc_state-Holds s (start / 512) n (omega (arith, bounds.1)),
      (highest_covers records 0 (start / 512 * 512) (omega (arith, bounds.0, bounds.2))).1,
      omega (arith, bounds.1, bounds.2),
    )
