-- ===== src/Elf/Examples.antt =====
-- A file with two segments to load, of which the second is writable.
use bradyp_os.Base.{ℕ, ◌+◌, ◌≡◌, refl, true, Option, some, ◌==◌, if◌then◌else◌}
use bradyp_os.Base.Array.{Array}
use bradyp_os.Elf.{
  Ehdr, Phdr, phdr_at, Segment, ElfState, loaded, headers, validate_elf_header, elf_ok,
  elf_flags_to_libelf_access, place_segment, add_segment, load_segments, loaded_from,
  linked_to_loaded_addr, load_elf_file,
}
use bradyp_os.Elf.Addresses.{IsTranslated}
use bradyp_os.Elf.Loading.{AreLoaded, load_elf_file-AreLoaded}

abbrev ident : Array
ident i =
    if i == 0
    then 0x7f
    else if i == 1
    then b'E'
    else if i == 2
    then b'L'
    else if i == 3
    then b'F'
    else 1

abbrev header : Ehdr
header = record {
  e_ident = ident;
  e_type = 2;
  e_machine = 40;
  e_version = 1;
  e_entry = 0x104;
  e_phoff = 52;
  e_phentsize = 32;
  e_phnum = 2;
}

-- The program headers stand behind that of the file.
abbrev phdrs : (address : ℕ) → Phdr
phdrs address =
    if address == 52
    then record {
      p_type = 1;
      p_offset = 0x1000;
      p_vaddr = 0x100;
      p_filesz = 0x80;
      p_memsz = 0x80;
      p_flags = 5;
      p_align = 4;
    }
    else record {
      p_type = 1;
      p_offset = 0x2000;
      p_vaddr = 0x4000;
      p_filesz = 0x10;
      p_memsz = 0x20;
      p_flags = 6;
      p_align = 4;
    }

-- The caller has an array of one entry.
abbrev start : ElfState
start = record {
  entry_point = 0;
  phdrs = 0;
  num_segments = 0;
  max_segments = 1;
  segments = λ _. record { linked_addr = 0; loaded_addr = 0; size = 0; perm = 0 };
}

abbrev code : Segment
code = record { linked_addr = 0x100; loaded_addr = 0x10001000; size = 0x80; perm = 5 }

abbrev variables : Segment
variables = record { linked_addr = 0x4000; loaded_addr = 0x20008000; size = 0x20; perm = 3 }

abbrev after : ElfState
after = record {
  entry_point = 0x10001004;
  phdrs = 0;
  num_segments = 2;
  max_segments = 1;
  segments = λ i. if i == 1 then variables else if i == 0 then code else start.segments i;
}

abbrev map : (n offset size align align_offset perm : ℕ) → Option ℕ
map n offset size align align_offset perm = some (0x10000000 + offset)

abbrev alloc_rw : (n size align align_offset perm : ℕ) → Option ℕ
alloc_rw n size align align_offset perm = some 0x20008000

-- Both segments are written, though the array has one entry.
load_run : load_elf_file map alloc_rw (λ _ _ _ _. true) (some header) phdrs start ≡ loaded after
unfolding load_elf_file phdr_at load_segments place_segment add_segment elf_flags_to_libelf_access
    linked_to_loaded_addr loaded_from validate_elf_header
load_run = refl

load_elf_file-AreLoaded_example :
    (hdr : Ehdr) × (some header ≡ some hdr)
    × (validate_elf_header hdr ≡ elf_ok)
    × AreLoaded 0 after (headers hdr.e_phnum 0 (phdr_at hdr phdrs))
    × IsTranslated 2 0 after.segments hdr.e_entry 0x10001004
load_elf_file-AreLoaded_example =
    load_elf_file-AreLoaded map alloc_rw (λ _ _ _ _. true) (some header) phdrs start after load_run
