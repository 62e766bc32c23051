-- ===== src/Elf/Headers.antt =====
-- What lib/elf/elf.c takes for an ELF file that it can load.
use bradyp_os.Base.{ℕ, ◌^◌, ◌≤◌, ◌<◌, ◌≡◌, ◌↔◌, ◌⊎◌, List, [], ◌∷◌, arith}
use bradyp_os.Elf.{Ehdr, elf_ok, invalid_elf, validate_elf_header, elf_hash, hash_step}

-- A little-endian file of 32-bit objects for ARM, an executable or a shared object, in the current version,
-- with program headers of at least the size of an `Elf32_Phdr`.
pub record IsArmElf (hdr : Ehdr) : Type 0 where
  pub mag0 : hdr.e_ident 0 ≡ 0x7f
  pub mag1 : hdr.e_ident 1 ≡ b'E'
  pub mag2 : hdr.e_ident 2 ≡ b'L'
  pub mag3 : hdr.e_ident 3 ≡ b'F'
  pub class32 : hdr.e_ident 4 ≡ 1
  pub little_endian : hdr.e_ident 5 ≡ 1
  pub loadable : (hdr.e_type ≡ 2) ⊎ (hdr.e_type ≡ 3)
  pub arm_machine : hdr.e_machine ≡ 40
  pub current : hdr.e_version ≡ 1
  pub phdrs_fit : 32 ≤ hdr.e_phentsize

-- The header is accepted exactly if it is that of an ARM ELF file, and refused as invalid else.
pub validate_elf_header_iff :
    (hdr : Ehdr)
    → ((validate_elf_header hdr ≡ elf_ok) ↔ IsArmElf hdr)
      × ((validate_elf_header hdr ≡ elf_ok) ⊎ (validate_elf_header hdr ≡ invalid_elf))
unfolding validate_elf_header
validate_elf_header_iff hdr = (
  (
    (λ h. record {
      mag0 = ground (arith, h);
      mag1 = ground (arith, h);
      mag2 = ground (arith, h);
      mag3 = ground (arith, h);
      class32 = ground (arith, h);
      little_endian = ground (arith, h);
      loadable = ground (arith, h);
      arm_machine = ground (arith, h);
      current = ground (arith, h);
      phdrs_fit = ground (arith, h);
    }),
    (λ v. ground (
      arith, v.mag0, v.mag1, v.mag2, v.mag3, v.class32, v.little_endian, v.loadable, v.arm_machine,
      v.current, v.phdrs_fit,
    )),
  ),
  ground arith,
)

hash_step-lt : (h c : ℕ) → hash_step h c < 2 ^ 28
unfolding hash_step
hash_step-lt h c = omega arith

-- The hash of a name fits 28 bits.
pub elf_hash-lt : (name : List ℕ) (h : ℕ) → h < 2 ^ 28 → elf_hash name h < 2 ^ 28
unfolding elf_hash
elf_hash-lt [] h lt = lt
elf_hash-lt (c ∷ cs) h lt = elf_hash-lt cs (hash_step h c) (hash_step-lt h c)
