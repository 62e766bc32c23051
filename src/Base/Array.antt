-- ===== src/Base/Array.antt =====
-- C arrays of numbers as functions from indices, with the number of occurrences of a value below
-- a bound. The bounds of the real arrays are stated where they matter.
use Prim.Native.Nat.{ℕ, zero, suc, ◌+◌, ◌≤◌, ◌<◌}
use mathlib.Core.Path.{◌≡◌, refl}
use native.Mathlib.Omega.{arith}
use bradyp_os.Base.Tests.{◌==◌, if◌then◌else◌, bit}

abbrev pub Array : Type 0
Array = ℕ → ℕ

-- `a[i] = v`
unfoldable pub store : Array → ℕ → ℕ → Array
store a i v j = if j == i then v else a j

unfoldable pub swap : Array → ℕ → ℕ → Array
unfolding store
swap a i j = store (store a i (a j)) j (a i)

-- How often `x` stands among the first `n` entries.
unfoldable pub count : ℕ → Array → ℕ → ℕ
count x a zero = 0
count x a (suc n) = bit (a n == x) + count x a n

pub count-store_ge : (x : ℕ) (a : Array) (i v n : ℕ) → n ≤ i → count x (store a i v) n ≡ count x a n
unfolding count store
count-store_ge x a i v zero h = refl
count-store_ge x a i v (suc n) h = ground (arith, count-store_ge x a i v n)

pub count-store :
    (x : ℕ) (a : Array) (i v n : ℕ)
    → i < n
    → count x (store a i v) n + bit (a i == x) ≡ count x a n + bit (v == x)
unfolding count store
count-store x a i v zero h = elim h [ ]
count-store x a i v (suc n) h = ground (arith, count-store x a i v n, count-store_ge x a i v n)

pub store_self : (a : Array) (i v : ℕ) → store a i v i ≡ v
unfolding store
store_self a i v = ground arith

pub count-swap :
    (x : ℕ) (a : Array) (i j n : ℕ) → i < n → j < n → count x (swap a i j) n ≡ count x a n
unfolding swap
count-swap x a i j n hi hj =
    ground (arith, count-store x a i (a j) n, count-store x (store a i (a j)) j (a i) n)
