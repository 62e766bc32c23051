-- ===== src/Elf.antt =====
-- lib/elf/elf.c: the loader of ELF files. The headers are what `read_elf_file` gives, and what the other
-- operations of a `struct libelf_ops` give are parameters (the bytes of a loaded segment are theirs); `Option` of a result is none where they fail.
pub mod Headers
pub mod Addresses
pub mod Loading
mod Examples
use Prim.Native.Nat.{bit_and, bit_xor}
use bradyp_os.Base.{
  ℕ, zero, suc, ◌+◌, ◌-◌, ◌*◌, ◌/◌, ◌%◌, ◌^◌, Bool, true, false, not, ◌&&◌, ◌||◌, Option, none,
  some, List, [], ◌∷◌, ltb, leb, ◌==◌, if◌then◌else◌, ◌>>=◌,
}
use bradyp_os.Base.Array.{Array}

-- The fields of an `Elf32_Ehdr` that are read.
pub record Ehdr : Type 0 where
  pub e_ident : Array
  pub e_type : ℕ
  pub e_machine : ℕ
  pub e_version : ℕ
  pub e_entry : ℕ
  pub e_phoff : ℕ
  pub e_phentsize : ℕ
  pub e_phnum : ℕ

-- `Elf32_Phdr`
pub record Phdr : Type 0 where
  pub p_type : ℕ
  pub p_offset : ℕ
  pub p_vaddr : ℕ
  pub p_filesz : ℕ
  pub p_memsz : ℕ
  pub p_flags : ℕ
  pub p_align : ℕ

-- `enum libelf_error`
pub data ElfError : Type 0 where
  elf_ok iface_error invalid_elf unknown_reloc nodyn nosym : ElfError

unfoldable pub validate_elf_header : Ehdr → ElfError
validate_elf_header hdr =
    if not (hdr.e_ident 0 == 0x7f)
      || not (hdr.e_ident 1 == b'E')
      || not (hdr.e_ident 2 == b'L')
      || not (hdr.e_ident 3 == b'F')
    then invalid_elf
    else if not (hdr.e_ident 4 == 1)
    then invalid_elf
    else if not (hdr.e_ident 5 == 1)
    then invalid_elf
    else if not (hdr.e_type == 2) && not (hdr.e_type == 3)
    then invalid_elf
    else if not (hdr.e_machine == 40)
    then invalid_elf
    else if not (hdr.e_version == 1)
    then invalid_elf
    else if ltb hdr.e_phentsize 32
    then invalid_elf
    else elf_ok

-- The bits of the flags are `PF_X`, `PF_W` and `PF_R`, those of the access R, W and X, from bit 0 on.
unfoldable pub elf_flags_to_libelf_access : (flags : ℕ) → ℕ
elf_flags_to_libelf_access flags =
    (if flags / 4 % 2 == 0 then 0 else 1)
    + (if flags / 2 % 2 == 0 then 0 else 2)
    + (if flags % 2 == 0 then 0 else 4)

-- `struct libelf_loaded_segment`
pub record Segment : Type 0 where
  pub linked_addr : ℕ
  pub loaded_addr : ℕ
  pub size : ℕ
  pub perm : ℕ

-- `struct libelf_state`
pub record ElfState : Type 0 where
  pub entry_point : ℕ
  pub phdrs : ℕ
  pub num_segments : ℕ
  pub max_segments : ℕ
  pub segments : ℕ → Segment

-- The loop over `n` segments from `i` on; 0 is the NULL pointer.
unfoldable pub loaded_from : (n i : ℕ) → (ℕ → Segment) → (addr : ℕ) → ℕ
loaded_from zero i segments addr = 0
loaded_from (suc n) i segments addr =
    let segment = segments i in
    let rest = loaded_from n (i + 1) segments addr in
    if leb segment.linked_addr addr && ltb addr ((segment.linked_addr + segment.size) % 2 ^ 32)
    then (segment.loaded_addr + (addr - segment.linked_addr)) % 2 ^ 32
    else rest

unfoldable pub linked_to_loaded_addr : ElfState → (addr : ℕ) → ℕ
linked_to_loaded_addr s addr = loaded_from s.num_segments 0 s.segments addr

-- `state->segments[state->num_segments++] = segment;` `max_segments` is not read.
unfoldable pub add_segment : ElfState → Segment → ElfState
add_segment s segment = record s {
  num_segments = s.num_segments + 1;
  segments = λ i. if i == s.num_segments then segment else s.segments i;
}

-- `n` program headers from `i` on
abbrev pub headers : (n i : ℕ) → (ℕ → Phdr) → List Phdr
headers zero i read_phdr = []
headers (suc n) i read_phdr = read_phdr i ∷ headers n (i + 1) read_phdr

-- `elf_hdr.e_phoff + i * elf_hdr.e_phentsize`; the result of the read is not looked at, so `read_phdr`
-- gives what the header holds behind it.
unfoldable pub phdr_at : Ehdr → (read_phdr : (address : ℕ) → Phdr) → (i : ℕ) → Phdr
phdr_at hdr read_phdr i = read_phdr ((hdr.e_phoff + i * hdr.e_phentsize) % 2 ^ 32)

pub data LoadResult : Type 0 where
  failed : ElfError → LoadResult
  loaded : ElfState → LoadResult

-- The result of the load, from that of the validation and that of the loop.
abbrev pub load_result : ElfError → Option ElfState → (e_entry : ℕ) → LoadResult
load_result elf_ok none e_entry = failed iface_error
load_result elf_ok (some s) e_entry =
    loaded (record s { entry_point = linked_to_loaded_addr s e_entry })
load_result err o e_entry = failed err

-- The operations: where the segment of a header is loaded, for `map` and for `alloc_rw` with the read
-- behind it. They may depend on the segments before, of which there are `n`.
module _ (map : (n offset size align align_offset perm : ℕ) → Option ℕ)
    (alloc_rw : (n size align align_offset perm : ℕ) → Option ℕ)
    (read_into : (n offset size loc : ℕ) → Bool) where
  unfoldable pub place_segment : ElfState → Phdr → (perm : ℕ) → Option ℕ
  place_segment s phdr perm =
      if phdr.p_flags / 2 % 2 == 0
      then map s.num_segments phdr.p_offset phdr.p_filesz phdr.p_align
          (bit_and phdr.p_vaddr phdr.p_align) perm
      else alloc_rw s.num_segments phdr.p_memsz phdr.p_align (phdr.p_vaddr % phdr.p_align) perm
        >>= λ loc.
            if read_into s.num_segments phdr.p_offset phdr.p_filesz loc then some loc else none

  -- The loop over the program headers; none is an error of the operations.
  unfoldable pub load_segments : List Phdr → ElfState → Option ElfState
  load_segments [] s = some s
  load_segments (phdr ∷ phdrs) s =
      let perm = elf_flags_to_libelf_access phdr.p_flags in
      let loaded = place_segment s phdr perm >>= λ loc. load_segments phdrs (
        add_segment s (record {
          linked_addr = phdr.p_vaddr;
          loaded_addr = loc;
          size = phdr.p_memsz;
          perm = perm;
        })) in
      let dynamic =
        load_segments phdrs (record s { phdrs = linked_to_loaded_addr s phdr.p_vaddr }) in
      let other = load_segments phdrs s in
      if phdr.p_type == 1 then loaded else if phdr.p_type == 2 then dynamic else other

  -- `load_elf_file` returns an error, or 0 with the state; `read_ehdr` is none where the read of the
  -- header fails. The result of the relocation is not looked at, and it changes words of loaded segments
  -- only.
  unfoldable pub load_elf_file :
      (read_ehdr : Option Ehdr) → (read_phdr : (address : ℕ) → Phdr) → ElfState → LoadResult
  unfolding validate_elf_header load_segments phdr_at
  load_elf_file none read_phdr s = failed iface_error
  load_elf_file (some hdr) read_phdr s =
      load_result (validate_elf_header hdr)
        (load_segments (headers hdr.e_phnum 0 (phdr_at hdr read_phdr)) s) hdr.e_entry

-- A step of `elf_hash`
unfoldable pub hash_step : (h c : ℕ) → ℕ
hash_step h c =
    let shifted = (h * 16 + c) % 2 ^ 32 in
    let g = shifted / 2 ^ 28 * 2 ^ 28 in
    let mixed = if g == 0 then shifted else bit_xor shifted (g / 2 ^ 24) in mixed % 2 ^ 28

-- The hash of the characters before the end of a name.
unfoldable pub elf_hash : List ℕ → (h : ℕ) → ℕ
unfolding hash_step
elf_hash [] h = h
elf_hash (c ∷ cs) h = elf_hash cs (hash_step h c)
