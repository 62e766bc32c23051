-- ===== src/Scheduler/Room.antt =====
-- Counting the entries of an array: distinct entries below a bound are at most that many.
use native.Mathlib.Decide.{ℕ_discrete, dec_lt}
use bradyp_os.Base.{ℕ, zero, suc, ◌+◌, ◌≤◌, ◌<◌, ◌≡◌, ◌≢◌, refl, ◌==◌, bit, arith}
use bradyp_os.Base.Array.{Array, count}

-- How many of the first `n` entries are below `m`.
total : ℕ → Array → ℕ → ℕ
total zero a n = 0
total (suc m) a n = count m a n + total m a n

-- 1 if `x` is below `m`, else 0.
hits : ℕ → ℕ → ℕ
hits zero x = 0
hits (suc m) x = bit (x == m) + hits m x

hits_above : (m x : ℕ) → m ≤ x → hits m x ≡ 0
unfolding hits
hits_above zero x h = refl
hits_above (suc m) x h = ground (arith, hits_above m x)

hits_below : (m x : ℕ) → x < m → hits m x ≡ 1
unfolding hits
hits_below zero x h = elim h [ ]
hits_below (suc m) x h = ground (arith, hits_below m x, hits_above m x)

total-suc : (m : ℕ) (a : Array) (n : ℕ) → total m a (suc n) ≡ hits m (a n) + total m a n
unfolding total hits count
total-suc zero a n = omega arith
total-suc (suc m) a n = omega (arith, total-suc m a n)

total-zero : (m : ℕ) (a : Array) → total m a 0 ≡ 0
unfolding total count
total-zero zero a = refl
total-zero (suc m) a = omega (arith, total-zero m a)

total_all : (m : ℕ) (a : Array) (n : ℕ) → ((j : ℕ) → j < n → a j < m) → total m a n ≡ n
total_all m a zero h = total-zero m a
total_all m a (suc n) h = omega (
  arith,
  total-suc m a n,
  hits_below m (a n) (h n (omega arith)),
  total_all m a n (λ j p. h j (omega arith)),
)

total_bound : (m : ℕ) (a : Array) (n : ℕ) → ((x : ℕ) → x < m → count x a n ≤ 1) → total m a n ≤ m
unfolding total
total_bound zero a n h = omega arith
total_bound (suc m) a n h =
    omega (arith, h m (omega arith), total_bound m a n (λ x p. h x (omega arith)))

total_strict :
    (m : ℕ) (a : Array) (n y : ℕ)
    → ((x : ℕ) → x < m → count x a n ≤ 1)
    → y < m
    → count y a n ≡ 0
    → total m a n < m
unfolding total
total_strict zero a n y h p e = elim p [ ]
total_strict (suc m) a n y h p e = elim (ℕ_discrete y m) [
  | yes q ↦ omega (arith, rw q at e, total_bound m a n (λ x p. h x (omega arith)))
  | no q ↦
      omega
        (arith, h m (omega arith), total_strict m a n y (λ x p. h x (omega arith)) (omega arith) e)
]

pub count_pos : (a : Array) (n j : ℕ) → j < n → 0 < count (a j) a n
unfolding count
count_pos a zero j h = elim h [ ]
count_pos a (suc n) j h = ground (arith, count_pos a n j)

pub count_zero : (x : ℕ) (a : Array) (n : ℕ) → ((j : ℕ) → j < n → a j ≢ x) → count x a n ≡ 0
unfolding count
count_zero x a zero h = refl
count_zero x a (suc n) h = ground (arith, h n, count_zero x a n (λ j p. h j (omega arith)))

inside :
    (m : ℕ) (a : Array) (n : ℕ) → ((x : ℕ) → m ≤ x → count x a n ≡ 0) → (j : ℕ) → j < n → a j < m
inside m a n out j h = elim (dec_lt (a j) m) [
  | yes p ↦ p
  | no q ↦ absurd (omega (arith, out (a j) (omega arith), count_pos a n j h))
]

module _ (m : ℕ) (a : Array) (n : ℕ) (out : (x : ℕ) → m ≤ x → count x a n ≡ 0)
    (once : (x : ℕ) → x < m → count x a n ≤ 1) where
  -- There is room for `m` values at most.
  pub size-le : n ≤ m
  size-le = omega (arith, total_all m a n (inside m a n out), total_bound m a n once)

  -- A value that is missing leaves room for one more.
  pub size-lt : (y : ℕ) → y < m → count y a n ≡ 0 → n < m
  size-lt y p e = omega (arith, total_all m a n (inside m a n out), total_strict m a n y once p e)
