-- ===== src/RomfsServer/Bounds.antt =====
-- How far a client of usr/root/romfs_server.c reads, and what it maps.
use bradyp_os.Base.{
  ℕ, ◌+◌, ◌-◌, ◌/◌, ◌%◌, ◌^◌, ◌≤◌, ◌<◌, ◌≡◌, ◌⊎◌, inl, inr, ltb, some, if◌then◌else◌, Bool-cases,
  lt_of_test, ge_of_test, arith,
}
use bradyp_os.Base.Array.{Array}
use bradyp_os.Romfs.{romfs_file_content_offset}
use bradyp_os.RomfsServer.{Files, find_vfs_file_state}
use bradyp_os.RomfsServer.Handlers.{read_ret, map_ret, Message, handle_vfs_read, handle_vfs_map}

-- The smaller of two lengths, cut to 22 bits.
cut_length :
    (left size offset total : ℕ)
    → offset + left ≡ total
    → let length = (if ltb left size then left else size) % 2 ^ 22 in
      (length ≡ size) ⊎ (offset + length ≡ total) ⊎ ((2 ^ 22 ≤ size) × (offset + 2 ^ 22 ≤ total))
cut_length left size offset total e = elim (Bool-cases (ltb left size)) [
  | inl short ↦
      let lt = lt_of_test left size short in
      elim (Bool-cases (ltb left (2 ^ 22))) [
        | inl fits ↦
            let f = lt_of_test left (2 ^ 22) fits in rw short (inr (inl (omega (arith, f, e))))
        | inr wide ↦
            let g = ge_of_test left (2 ^ 22) wide in
            inr (inr (omega (arith, lt, g), omega (arith, g, e)))
      ]
  | inr long ↦
      let ge = ge_of_test left size long in
      elim (Bool-cases (ltb size (2 ^ 22))) [
        | inl fits ↦ let f = lt_of_test size (2 ^ 22) fits in rw long (inl (omega (arith, f)))
        | inr wide ↦ let g = ge_of_test size (2 ^ 22) wide in inr (inr (g, omega (arith, ge, g, e)))
      ]
]

module _ (memory : Array) (rootfs_base : ℕ) (files : Files) (from : ℕ) (m : Message) (p : ℕ)
    (at : find_vfs_file_state files from (m.mrs 1) ≡ some p) where
  -- A `read` of an open file from an offset within the file, where the file lies within the 32-bit
  -- addresses, gives at most the requested number of bytes, fewer than 2 ^ 22, and none behind the end of
  -- the file; the bytes begin at the offset behind the file's header. They are as many as requested, or go
  -- up to the end of the file, or else both the request and what is left of the file have 2 ^ 22 bytes or
  -- more, and the length is cut to the 22 bits of its field.
  pub handle_vfs_read_bounds :
      m.u ≡ 3
      → m.t ≡ 0
      → m.mrs 2 ≤ (files p).file_info.size
      → (files p).file_info.size < 2 ^ 32
      → rootfs_base + (files p).file_off + 32 + (files p).file_info.size < 2 ^ 32
      → (length : ℕ) × (handle_vfs_read memory rootfs_base files from m
          ≡ read_ret length (rootfs_base + ((files p).file_off + 32) + m.mrs 2))
        × (length ≤ m.mrs 3)
        × (m.mrs 2 + length ≤ (files p).file_info.size)
        × (length < 2 ^ 22)
        × ((length ≡ m.mrs 3)
            ⊎ (m.mrs 2 + length ≡ (files p).file_info.size)
            ⊎ ((2 ^ 22 ≤ m.mrs 3) × (m.mrs 2 + 2 ^ 22 ≤ (files p).file_info.size)))
  unfolding handle_vfs_read romfs_file_content_offset
  handle_vfs_read_bounds u t inside fits mapped =
      let rest : ((files p).file_info.size + 2 ^ 32 - m.mrs 2) % 2 ^ 32
          ≡ (files p).file_info.size - m.mrs 2 =
        omega (arith, inside, fits) in
      let left = (files p).file_info.size - m.mrs 2 in
      (
        (if ltb left (m.mrs 3) then left else m.mrs 3) % 2 ^ 22,
        ground (arith, at, u, t, rest, inside, mapped),
        ground arith,
        ground (arith, inside),
        omega arith,
        cut_length left (m.mrs 3) (m.mrs 2) (files p).file_info.size (omega (arith, inside)),
      )

  -- A mapping is given of an open file only, not for writing, and only where the sum of offset and size,
  -- as a 32-bit word, is at most the size of the file.
  pub handle_vfs_map_bounds :
      (clz : ℕ → ℕ) (file_addr : ℕ) (item : ℕ × ℕ)
      → handle_vfs_map memory rootfs_base files from m clz ≡ map_ret file_addr item
      → ((m.mrs 2 + m.mrs 3) % 2 ^ 32 ≤ (files p).file_info.size)
        × (m.mrs 4 / 2 % 2 ≡ 0)
        × (file_addr ≡ (rootfs_base + ((files p).file_off + 32)) % 2 ^ 32)
  unfolding handle_vfs_map romfs_file_content_offset
  handle_vfs_map_bounds clz file_addr item h = ground (arith, at, h)
