-- ===== src/Pages/FirstFit.antt =====
-- First fit on lists of free ranges, which lib/buddy/linked_list_alloc.c does on its nodes.
use bradyp_os.Base.{ℕ, ◌+◌, ◌-◌, ◌≤◌, ◌<◌, ◌≡◌, ◌⊎◌, inl, inr, List, [], ◌∷◌, three_way, arith}
use bradyp_os.Pages.Ranges.{
  Range, total, Clear, AreApart, Fit, no_fit, fits, behind, first_fit, Clear-part,
}

pub first_fit_short :
    (n c k : ℕ) (xs : List Range)
    → k < n
    → first_fit n ((c, k) ∷ xs) ≡ behind (c, k) (first_fit n xs)
unfolding first_fit
first_fit_short n c k xs h = ground arith

pub first_fit_exact : (n c k : ℕ) (xs : List Range) → k ≡ n → first_fit n ((c, k) ∷ xs) ≡ fits c xs
unfolding first_fit
first_fit_exact n c k xs h = ground arith

pub first_fit_longer :
    (n c k : ℕ) (xs : List Range) → n < k → first_fit n ((c, k) ∷ xs) ≡ fits c ((c + n, k - n) ∷ xs)
unfolding first_fit
first_fit_longer n c k xs h = ground arith

-- Every range has fewer than `n` pages.
abbrev pub AreShort : ℕ → List Range → Type 0
AreShort n [] = Unit
AreShort n ((b, m) ∷ xs) = (m < n) × AreShort n xs

-- `[b, b + n)` lies within one of the ranges.
abbrev pub Within : (b n : ℕ) → List Range → Type 0
Within b n [] = ⊥
Within b n ((c, k) ∷ xs) = ((c ≤ b) × (b + n ≤ c + k)) ⊎ Within b n xs

-- The result of first fit: nothing is long enough, or `n` pages of the list leave it, and what stays is
-- in order, clear of these pages and still within the list.
abbrev pub IsRight : ℕ → List Range → Fit → Type 0
IsRight n xs no_fit = AreShort n xs
IsRight n xs (fits b ys) =
    Within b n xs
    × Clear b n ys
    × AreApart ys
    × (total ys + n ≡ total xs)
    × ((c k : ℕ) → Clear c k xs → Clear c k ys)

Clear-sym :
    (b n c k : ℕ) (xs : List Range) → Within b n xs → Clear c k xs → (b + n ≤ c) ⊎ (c + k ≤ b)
Clear-sym b n c k [] w h = absurd w
Clear-sym b n c k ((d, m) ∷ xs) (inl w) h = ground (arith, w.0, w.1, h.0)
Clear-sym b n c k ((d, m) ∷ xs) (inr w) h = Clear-sym b n c k xs w h.1

behind-IsRight :
    (n c k : ℕ) (xs : List Range) (f : Fit)
    → AreApart ((c, k) ∷ xs)
    → k < n
    → IsRight n xs f
    → IsRight n ((c, k) ∷ xs) (behind (c, k) f)
behind-IsRight n c k xs no_fit a h r = (h, r)
behind-IsRight n c k xs (fits b ys) a h r = (
  inr r.0,
  (Clear-sym b n c k xs r.0 a.1, r.1),
  (a.0, r.4 c k a.1, r.2),
  omega (arith, r.3),
  λ d m cl. (cl.0, r.4 d m cl.1),
)

exact-IsRight :
    (n c k : ℕ) (xs : List Range)
    → AreApart ((c, k) ∷ xs)
    → k ≡ n
    → IsRight n ((c, k) ∷ xs) (fits c xs)
exact-IsRight n c k xs a h = (
  inl (omega (arith, h)),
  Clear-part c k c n xs a.1 (omega arith) (omega (arith, h)),
  a.2,
  omega (arith, h),
  λ d m cl. cl.1,
)

longer-IsRight :
    (n c k : ℕ) (xs : List Range)
    → AreApart ((c, k) ∷ xs)
    → n < k
    → IsRight n ((c, k) ∷ xs) (fits c ((c + n, k - n) ∷ xs))
longer-IsRight n c k xs a h = (
  inl (omega (arith, h)),
  (inl (omega arith), Clear-part c k c n xs a.1 (omega arith) (omega (arith, h))),
  (omega (arith, h), Clear-part c k (c + n) (k - n) xs a.1 (omega arith) (omega (arith, h)), a.2),
  omega (arith, h),
  λ d m cl. (ground (arith, cl.0, h), cl.1),
)

first_fit-nil : (n : ℕ) → IsRight n [] (first_fit n [])
unfolding first_fit
first_fit-nil n = tt

pub first_fit-IsRight : (n : ℕ) (xs : List Range) → AreApart xs → IsRight n xs (first_fit n xs)
first_fit-IsRight n [] a = first_fit-nil n
first_fit-IsRight n ((c, k) ∷ xs) a = elim (three_way k n) [
  | inl short ↦
      rw (first_fit_short n c k xs short)
        (behind-IsRight n c k xs (first_fit n xs) a short (first_fit-IsRight n xs a.2))
  | inr (inl exact) ↦ rw (first_fit_exact n c k xs exact) (exact-IsRight n c k xs a exact)
  | inr (inr more) ↦ rw (first_fit_longer n c k xs more) (longer-IsRight n c k xs a more)
]
