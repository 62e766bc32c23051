-- ===== src/Memory/Tag.antt =====
-- include/l4/ipc.h: the fields of a message tag.
use bradyp_os.Base.{ℕ, ◌+◌, ◌*◌, ◌/◌, ◌%◌}

abbrev pub untyped_words : ℕ → ℕ
untyped_words raw = raw % 64

abbrev pub typed_words : ℕ → ℕ
typed_words raw = raw / 64 % 64

abbrev pub flags : ℕ → ℕ
flags raw = raw / 4096 % 16

abbrev pub label : ℕ → ℕ
label raw = raw / 65536 % 65536

abbrev pub make : (u t flags label : ℕ) → ℕ
make u t flags label = u % 64 + 64 * (t % 64) + 4096 * (flags % 16) + 65536 * (label % 65536)
