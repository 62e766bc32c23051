-- ===== src/Fpage.antt =====
-- include/l4/fpage.h, include/l4/space.h and the grant items of include/l4/ipc.h: flexpages by their bit
-- fields, and the two words of an item. Addresses are 32-bit words.
pub mod Laws
mod Examples
use Prim.Native.Nat.{bit_or}
use bradyp_os.Base.{
  ℕ, ◌+◌, ◌-◌, ◌*◌, ◌/◌, ◌%◌, ◌^◌, Bool, ◌==◌, ltb, Option, none, some, if◌then◌else◌,
}

-- `union L4_fpage`
pub record Fpage : Type 0 where
  pub perm : ℕ
  pub s : ℕ
  pub b : ℕ

unfoldable pub raw : Fpage → ℕ
raw f = f.perm + 16 * f.s + 1024 * f.b

unfoldable pub of_raw : ℕ → Fpage
of_raw w = record { perm = w % 16; s = w / 16 % 64; b = w / 1024 % 2 ^ 22 }

-- The size is not below 9 where the code calls it.
unfoldable pub fpage_log2 : (base_address fpage_size_log2 : ℕ) → Fpage
fpage_log2 base_address fpage_size_log2 = record {
  perm = 0;
  s = (fpage_size_log2 - 9) % 64;
  b = base_address / 512 % 2 ^ 22;
}

unfoldable pub address : Fpage → ℕ
address f = f.b * 512

-- `1 << bits`; none where it shifts by the width of a word or more, which C leaves undefined.
unfoldable pub shifted_one : (bits : ℕ) → Option ℕ
shifted_one bits = if ltb bits 32 then some (2 ^ bits) else none

unfoldable pub size : Fpage → Option ℕ
unfolding shifted_one
size f = shifted_one (f.s + 9)

unfoldable pub rights : Fpage → ℕ
rights f = f.perm

unfoldable pub add_rights : Fpage → (rights : ℕ) → Fpage
add_rights f rights = record f { perm = bit_or f.perm rights % 16 }

-- The words of `struct L4_grant_item`.
unfoldable pub grant_item : Fpage → (snd_base : ℕ) → ℕ × ℕ
unfolding raw
grant_item f snd_base =
    (2 * 5 + 1024 * (snd_base / 512 % 2 ^ 22), f.perm + 16 * (raw f / 16 % 2 ^ 28))

-- The words of `struct L4_map_item`.
unfoldable pub map_item : Fpage → (snd_base : ℕ) → ℕ × ℕ
unfolding raw
map_item f snd_base =
    (2 * 4 + 1024 * (snd_base / 512 % 2 ^ 22), f.perm + 16 * (raw f / 16 % 2 ^ 28))

-- `item->snd_fpage >> 6` and the lowest 7 bits of it, cut to the width of the fields.
unfoldable pub grant_item_snd_fpage : ℕ × ℕ → Fpage
grant_item_snd_fpage item =
    let snd_fpage = item.1 / 16 % 2 ^ 28 in
    record { perm = item.1 % 16; s = snd_fpage % 2 ^ 7 % 64; b = snd_fpage / 2 ^ 6 % 2 ^ 22 }

unfoldable pub grant_item_snd_base : ℕ × ℕ → ℕ
grant_item_snd_base item = item.0 / 1024 % 2 ^ 22 * 512

unfoldable pub is_grant_item : ℕ × ℕ → Bool
is_grant_item item = item.0 / 2 % 8 == 5

-- `clz` is the compiler's __builtin_clz, and 4 is `sizeof(value)`.
module _ (clz : ℕ → ℕ) where
  unfoldable pub floorlog2 : ℕ → ℕ
  floorlog2 value = (4 + 2 ^ 32 - clz value) % 2 ^ 32

  unfoldable pub fpage : (base_address fpage_size : ℕ) → Fpage
  unfolding floorlog2
  fpage base_address fpage_size = record {
    perm = 0;
    s = floorlog2 fpage_size % 64;
    b = base_address / 512 % 2 ^ 22;
  }
