-- ===== src/Romfs.antt =====
-- lib/romfs/romfs.c: the reader of a ROM file system. The block interface is `map`: the bytes from an
-- offset on, or none where it fails; `unmap` changes nothing that is read. A `char` is an unsigned byte.
-- Of a result in Option, `none` means that a text without its end is read past its bytes, or that the
-- fuel does not suffice.
pub mod Text
pub mod Lookup
mod Examples
use bradyp_os.Base.{
  ℕ, zero, suc, ◌+◌, ◌*◌, ◌/◌, ◌%◌, ◌^◌, Bool, true, false, not, ◌&&◌, ◌||◌, Option, none, some,
  List, [], ◌∷◌, ◌==◌, if◌then◌else◌, ◌>>=◌,
}
use bradyp_os.Base.Array.{Array}

-- `-rom1fs-`
abbrev pub romfs_magic : List ℕ
romfs_magic = b'-' ∷ b'r' ∷ b'o' ∷ b'm' ∷ b'1' ∷ b'f' ∷ b's' ∷ b'-' ∷ []

-- The loop from `i` on.
abbrev pub begins_with : Array → (i : ℕ) → List ℕ → Bool
begins_with block i [] = true
begins_with block i (c ∷ cs) =
    let rest = begins_with block (i + 1) cs in if not (block i == c) then false else rest

unfoldable pub is_romfs_magic : Array → Bool
is_romfs_magic block = begins_with block 0 romfs_magic

-- Bytes in four places of a word.
unfoldable pub read_big_endian : Array → (offset : ℕ) → ℕ
read_big_endian block offset =
    block offset * 2 ^ 24
    + block (offset + 1) * 2 ^ 16
    + block (offset + 2) * 2 ^ 8
    + block (offset + 3)

-- `count` bytes from `offset` on
abbrev pub bytes : Array → (offset count : ℕ) → List ℕ
bytes block offset zero = []
bytes block offset (suc n) = block offset ∷ bytes block (offset + 1) n

-- `struct romfs_info`
pub record RomfsInfo : Type 0 where
  pub total_size : ℕ
  pub name : List ℕ

-- `struct romfs_file_info`; the type is the number of the enumerator.
pub record FileInfo : Type 0 where
  pub type : ℕ
  pub executable : Bool
  pub info : ℕ
  pub size : ℕ
  pub name : List ℕ

abbrev pub ft_directory : ℕ
ft_directory = 1

abbrev pub invalid_file : ℕ
invalid_file = 0

-- The result is the difference of the two numbers. The texts are the bytes that may be read.
unfoldable pub strcmp : List ℕ → List ℕ → Option (ℕ × ℕ)
strcmp [] ys = none
strcmp (x ∷ xs) [] = none
strcmp (x ∷ xs) (y ∷ ys) =
    let rest = strcmp xs ys in
    if not (x == 0) && not (y == 0) then if not (x == y) then some (x, y) else rest else some (x, y)

module _ (map : (offset size : ℕ) → Option Array) where
  unfoldable pub is_valid_romfs : Bool
  unfolding is_romfs_magic
  is_valid_romfs = elim (map 0 32) [ none ↦ false | some block ↦ is_romfs_magic block ]

  unfoldable pub romfs_info : Option RomfsInfo
  unfolding read_big_endian
  romfs_info = map 0 32 >>= λ block.
      some (record { total_size = read_big_endian block 8; name = bytes block 16 16 })

  unfoldable pub romfs_file_info : (file : ℕ) → Option FileInfo
  unfolding read_big_endian
  romfs_file_info file = map file 32 >>= λ block.
      let next_file_hdr = read_big_endian block 0 in
      some (record {
        type = next_file_hdr % 8;
        executable = not (next_file_hdr / 8 % 2 == 0);
        info = read_big_endian block 4;
        size = read_big_endian block 8;
        name = bytes block 16 16;
      })

  unfoldable pub romfs_next_file : (file : ℕ) → ℕ
  unfolding read_big_endian
  romfs_next_file file = elim (map file 16) [
    | none ↦ invalid_file
    | some block ↦ read_big_endian block 0 / 16 * 16
  ]

  -- The loop over the files from `current_file` on.
  unfoldable pub find_file : (fuel current_file : ℕ) → (name : List ℕ) → Option ℕ
  find_file zero current_file name = none
  find_file (suc fuel) current_file name =
      let next = find_file fuel (romfs_next_file current_file) name in
      if current_file == invalid_file
      then some invalid_file
      else elim (romfs_file_info current_file) [
        | none ↦ next
        | some file_info ↦ strcmp file_info.name name >>= λ diff.
            if diff.0 == diff.1 then some current_file else next
      ]

  unfoldable pub romfs_openat : (fuel file : ℕ) → (name : List ℕ) → Option ℕ
  romfs_openat fuel file name = elim (romfs_file_info file) [
    | none ↦ some invalid_file
    | some file_info ↦
        if not (file_info.type == ft_directory)
        then some invalid_file
        else find_file fuel file_info.info name
  ]

abbrev pub romfs_root_directory : ℕ
romfs_root_directory = 32

unfoldable pub romfs_file_content_offset : (file_handle : ℕ) → ℕ
romfs_file_content_offset file_handle = (file_handle + 32) % 2 ^ 32
