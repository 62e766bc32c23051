-- ===== src/Memory/Utcb.antt =====
-- include/l4/utcb.h: the words of `struct L4_utcb`.
use bradyp_os.Base.{ℕ, ◌+◌}

abbrev pub global_id : ℕ
global_id = 0

abbrev pub processor_no : ℕ
processor_no = 1

abbrev pub t_pager : ℕ
t_pager = 3

abbrev pub error : ℕ
error = 6

abbrev pub sender : ℕ
sender = 8

abbrev pub mr : ℕ → ℕ
mr i = 11 + i

abbrev pub br : ℕ → ℕ
br i = 27 + i

abbrev pub mr_count : ℕ
mr_count = 16
