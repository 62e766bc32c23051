-- ===== src/Ids/Fields.antt =====
-- The fields of the identifiers that `L4_global_id` of include/l4/thread.h composes.
use Prim.Native.Nat.{bit_or, bit_or-bitwise, digits, max}
use native.Mathlib.Nat.{mul_assoc, pow-suc}
use bradyp_os.Base.{sym, ℕ, zero, suc, ◌+◌, ◌*◌, ◌/◌, ◌%◌, ◌^◌, ◌≤◌, ◌<◌, ◌≡◌, refl, arith}
use bradyp_os.Ids.{global_id, version, thread_no}

-- What `bit_or` computes, on `n` digits.
abbrev joined : ℕ → ℕ → ℕ → ℕ
joined n a b = digits (λ x. x) max n a b

joined_enough : (n m a b : ℕ) → a ≤ n → a ≤ m → joined n a b ≡ joined m a b
joined_enough zero zero a b p q = refl
joined_enough zero (suc m) zero b p q = refl
joined_enough (suc n) zero zero b p q = refl
joined_enough (suc n) (suc m) zero b p q = refl
joined_enough zero (suc m) (suc a) b p q = absurd (omega arith)
joined_enough (suc n) zero (suc a) b p q = absurd (omega arith)
joined_enough (suc n) (suc m) (suc a) b p q =
    let rest = joined_enough n m (suc a / 2) (b / 2) (omega arith) (omega arith) in
    omega (arith, rest)

zero-bit_or : (b : ℕ) → bit_or 0 b ≡ b
zero-bit_or b = bit_or-bitwise 0 b

-- The last binary digit, and the digits before it.
bit_or-halves : (a b : ℕ) → bit_or a b ≡ bit_or (a / 2) (b / 2) * 2 + max (a % 2) (b % 2)
bit_or-halves zero b = omega (arith, zero-bit_or b, zero-bit_or (b / 2))
bit_or-halves (suc a) b =
    let enough = joined_enough a (suc a / 2) (suc a / 2) (b / 2) (omega arith) (omega arith) in
    omega (arith, bit_or-bitwise (suc a) b, bit_or-bitwise (suc a / 2) (b / 2), enough)

bit_or-zero : (n a : ℕ) → a ≤ n → bit_or a 0 ≡ a
bit_or-zero n zero p = refl
bit_or-zero zero (suc a) p = absurd (omega arith)
bit_or-zero (suc n) (suc a) p =
    let rest = bit_or-zero n (suc a / 2) (omega arith) in
    omega (arith, bit_or-halves (suc a) 0, rest)

-- Numbers that share no digit are added.
bit_or-above : (k n v : ℕ) → v < 2 ^ k → bit_or (n * 2 ^ k) v ≡ n * 2 ^ k + v
bit_or-above zero n v p =
    let nothing : v ≡ 0 = omega arith in
    rw nothing (omega (arith, bit_or-zero (n * 1) (n * 1) (omega arith)))
bit_or-above (suc k) n v p =
    let x = n * 2 ^ k in
    let twice : n * 2 ^ suc k ≡ x * 2 = rw (pow-suc 2 k) (sym (mul_assoc n (2 ^ k) 2)) in
    let small : v < 2 ^ k * 2 = rw (pow-suc 2 k) at p in
    let half : x * 2 / 2 ≡ x = omega arith in
    let even : x * 2 % 2 ≡ 0 = omega arith in
    let rest = bit_or-above k n (v / 2) (omega arith) in
    rw twice (omega (arith, rw (half, even) at (bit_or-halves (x * 2) v), rest))

-- For a thread number of 18 bits and a version of 14 bits, `L4_thread_no` yields the number of the
-- composed identifier, and `L4_version` the version plus, for an odd number, 2 ^ 14.
pub global_id-fields :
    (number v : ℕ)
    → number < 2 ^ 18
    → v < 2 ^ 14
    → (thread_no (global_id number v) ≡ number)
      × (version (global_id number v) ≡ v + 2 ^ 14 * (number % 2))
unfolding global_id thread_no version
global_id-fields number v p q =
    let fits : number * 2 ^ 14 % 2 ^ 32 ≡ number * 2 ^ 14 = omega arith in
    let sum = bit_or-above 14 number v q in
    (rw (fits, sum) (omega arith), rw (fits, sum) (omega arith))
