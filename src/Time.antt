-- ===== src/Time.antt =====
-- include/l4/time.h and lib/l4/schedule.c: times of IPC. An `L4_time_t` is a 16-bit number with the
-- mantissa `m` in bits 0 to 9, the exponent `e` in bits 10 to 14, and `point` in bit 15.
use bradyp_os.Base.{ℕ, ◌+◌, ◌-◌, ◌*◌, ◌/◌, ◌%◌, ◌^◌, Bool, not, ltb, ◌==◌, if◌then◌else◌}

abbrev pub mantissa : ℕ → ℕ
mantissa raw = raw % 2 ^ 10

abbrev pub exponent : ℕ → ℕ
exponent raw = raw / 2 ^ 10 % 2 ^ 5

abbrev pub is_point : ℕ → Bool
is_point raw = raw / 2 ^ 15 % 2 == 1

abbrev pub make_time : (m e : ℕ) → ℕ
make_time m e = m % 2 ^ 10 + 2 ^ 10 * (e % 2 ^ 5)

abbrev pub never : ℕ
never = 0

abbrev pub zero_time : ℕ
zero_time = make_time 0 1

unfoldable pub time_add_usec : (l r : ℕ) → ℕ
time_add_usec l r = make_time (mantissa l + r / 2 ^ exponent l) (exponent l)

-- The mantissa wraps around: 2 ^ 32 is a multiple of its modulus.
unfoldable pub time_sub_usec : (l r : ℕ) → ℕ
time_sub_usec l r = make_time (mantissa l + 2 ^ 32 - r / 2 ^ exponent l) (exponent l)

abbrev pub max_unsigned : ℕ → ℕ → ℕ
max_unsigned a b = if ltb a b then b else a

-- `(v.m << 22) >> (e - v.e)`: the 10-bit field is promoted to `int`, so that the shifted mantissa is
-- negative from 512 on, and the shift to the right keeps the sign, as GCC has it.
unfoldable pub adj_fix_value : (v e : ℕ) → ℕ
adj_fix_value v e =
    let x = mantissa v * 2 ^ 22 in
    let k = 2 ^ (e - exponent v) in
    if ltb (mantissa v) 512 then x / k else 2 ^ 32 - (2 ^ 32 - x + k - 1) / k

unfoldable pub is_time_longer : ℕ → ℕ → Bool
unfolding adj_fix_value
is_time_longer l r =
    let exp = max_unsigned (exponent l) (exponent r) in
    ltb (adj_fix_value r exp) (adj_fix_value l exp)

unfoldable pub is_time_shorter : ℕ → ℕ → Bool
unfolding adj_fix_value
is_time_shorter l r =
    let exp = max_unsigned (exponent l) (exponent r) in
    ltb (adj_fix_value l exp) (adj_fix_value r exp)

unfoldable pub is_time_equal : ℕ → ℕ → Bool
unfolding adj_fix_value
is_time_equal l r =
    let exp = max_unsigned (exponent l) (exponent r) in adj_fix_value l exp == adj_fix_value r exp

unfoldable pub is_time_not_equal : ℕ → ℕ → Bool
unfolding adj_fix_value
is_time_not_equal l r =
    let exp = max_unsigned (exponent l) (exponent r) in
    not (adj_fix_value l exp == adj_fix_value r exp)

-- `timeout.m << timeout.e`, an `int` of 32 bits, divided by 10 towards zero, as it is added to an
-- `unsigned long`.
unfoldable pub ticks : ℕ → ℕ
ticks timeout =
    let x = mantissa timeout * 2 ^ exponent timeout % 2 ^ 32 in
    if ltb x (2 ^ 31) then x / 10 else 2 ^ 32 - (2 ^ 32 - x) / 10
