-- ===== src/RootMemory.antt =====
-- usr/root/memory.c: the memory of the root server. A pointer to a page is `512` times the page's number,
-- which is what lib/buddy has. The message registers are a function of their index.
pub mod HeapStart
pub mod Grants
pub mod Returns
mod Examples
use Prim.Native.Nat.{max}
use bradyp_os.Base.{
  ℕ, zero, suc, ◌+◌, ◌-◌, ◌*◌, ◌/◌, ◌%◌, ◌^◌, Bool, not, ◌&&◌, ◌||◌, Option, none, some, List, [],
  ◌∷◌, ltb, ◌==◌, if◌then◌else◌, ◌>>=◌,
}
use bradyp_os.Memory.Tag
use bradyp_os.Pages.{
  Pages, init_linked_list_alloc_state, linked_list_alloc_pages, linked_list_free_pages,
}
use bradyp_os.Fpage
use bradyp_os.Fpage.{Fpage}

-- A record of the boot information; the segments are those of a `struct L4_boot_info_record_exe`.
pub record BootRecord : Type 0 where
  pub type : ℕ
  pub data_vstart : ℕ
  pub data_size : ℕ
  pub bss_vstart : ℕ
  pub bss_size : ℕ

abbrev pub boot_info_exe : ℕ
boot_info_exe = 2

abbrev pub sram_end : ℕ
sram_end = 0x20000000 + 0x42000

-- `(value + 511) & ~511` on 32 bits
unfoldable pub align_to_page : ℕ → ℕ
align_to_page value = (value + 511) % 2 ^ 32 / 512 * 512

abbrev pub larger : (address highest : ℕ) → ℕ
larger address highest = if ltb highest address then address else highest

-- The body of the loop.
unfoldable pub visit : (highest : ℕ) → BootRecord → ℕ
visit highest r =
    let with_data = larger ((r.data_vstart + r.data_size) % 2 ^ 32) highest in
    let with_bss = larger ((r.bss_vstart + r.bss_size) % 2 ^ 32) with_data in
    if not (r.type == boot_info_exe) then highest else with_bss

unfoldable pub highest_address : List BootRecord → (highest : ℕ) → ℕ
unfolding visit
highest_address [] highest = highest
highest_address (r ∷ rs) highest = highest_address rs (visit highest r)

unfoldable pub find_heap_start : List BootRecord → ℕ
unfolding highest_address align_to_page
find_heap_start records = align_to_page (highest_address records 0)

unfoldable pub init_memory_management : List BootRecord → Pages → Pages
unfolding find_heap_start
init_memory_management records s =
    let heap_base_aligned = find_heap_start records in
    init_linked_list_alloc_state s (heap_base_aligned / 512)
      ((sram_end + 2 ^ 32 - heap_base_aligned) % 2 ^ 32 / 512)

-- The allocator's state, and the message registers of the thread.
pub record Root : Type 0 where
  pub pages : Pages
  pub mrs : ℕ → ℕ

abbrev pub load_mr : (i word : ℕ) → (ℕ → ℕ) → ℕ → ℕ
load_mr i word mrs = λ j. if j == i then word else mrs j

abbrev pub root_error : ℕ
root_error = 2

abbrev pub einval : ℕ
einval = 22

abbrev pub enomem : ℕ
enomem = 12

unfoldable pub create_ipc_alloc_error : Root → (errno : ℕ) → Root
create_ipc_alloc_error s errno = record s {
  mrs = load_mr 1 errno (load_mr 0 (Tag.make 1 0 0 root_error) s.mrs);
}

-- The answer of an allocation: a grant of the flexpage in the registers 1 and 2.
unfoldable pub answer_alloc : Root → Fpage → Root
unfolding Fpage.grant_item
answer_alloc s allocated_fpage =
    let item = Fpage.grant_item allocated_fpage 0 in
    record s { mrs = load_mr 2 item.1 (load_mr 1 item.0 (load_mr 0 (Tag.make 1 2 0 0) s.mrs)) }

-- `none` is also a shift that C leaves undefined, for a size field above 22.
unfoldable pub handle_ipc_alloc : (fuel : ℕ) → Root → (msg_tag : ℕ) → Option Root
unfolding create_ipc_alloc_error answer_alloc Fpage.of_raw Fpage.shifted_one Fpage.add_rights
    Fpage.fpage_log2
handle_ipc_alloc fuel s msg_tag =
    let requested_fpage = Fpage.of_raw (s.mrs 1) in
    let allocated = Fpage.shifted_one (requested_fpage.s + 9) >>= λ count.
    linked_list_alloc_pages fuel s.pages count in
    if not (Tag.untyped_words msg_tag == 2) || not (Tag.typed_words msg_tag == 0)
    then some (create_ipc_alloc_error s einval)
    else allocated >>= λ r. elim r.0 [
      | none ↦ some (create_ipc_alloc_error (record s { pages = r.1 }) enomem)
      | some mem ↦
          let allocated_fpage =
            Fpage.add_rights (Fpage.fpage_log2 (mem * 512) (requested_fpage.s + 9))
              (Fpage.rights requested_fpage) in
          some (answer_alloc (record s { pages = r.1 }) allocated_fpage)
    ]

-- `unmap` is the system call: what it leaves in the message registers.
module _ (unmap : (control : ℕ) → (ℕ → ℕ) → ℕ → ℕ) where
  unfoldable pub handle_ipc_free : Root → (msg_tag : ℕ) → Option Root
  unfolding create_ipc_alloc_error Fpage.of_raw Fpage.address Fpage.size
  handle_ipc_free s msg_tag =
      let target_page = Fpage.of_raw (s.mrs 1) in
      let unmapped = unmap 64 (load_mr 0 (Fpage.raw target_page) s.mrs) in
      if not (Tag.untyped_words msg_tag == 2) || not (Tag.typed_words msg_tag == 0)
      then some (create_ipc_alloc_error s einval)
      else Fpage.size target_page >>= λ size. some (record {
        pages = linked_list_free_pages s.pages (Fpage.address target_page / 512) (size / 512);
        mrs = load_mr 0 (Tag.make 0 0 0 1) unmapped;
      })
