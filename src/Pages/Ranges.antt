-- ===== src/Pages/Ranges.antt =====
-- Lists of free ranges, what lib/buddy/linked_list_alloc.c stands for: first fit on such a list.
use bradyp_os.Base.{ℕ, ◌+◌, ◌-◌, ◌≤◌, ◌<◌, ◌⊎◌, true, false, List, [], ◌∷◌, ltb, arith}

-- The first page and the number of pages.
abbrev pub Range : Type 0
Range = ℕ × ℕ

-- How many pages there are.
abbrev pub total : List Range → ℕ
total [] = 0
total ((b, m) ∷ xs) = m + total xs

-- The page does not stand in a range of the list.
abbrev pub Outside : ℕ → List Range → Type 0
Outside p [] = Unit
Outside p ((b, m) ∷ xs) = ((p < b) ⊎ (b + m ≤ p)) × Outside p xs

-- The range `[b, b + m)` overlaps no range of the list.
abbrev pub Clear : (b m : ℕ) → List Range → Type 0
Clear b m [] = Unit
Clear b m ((c, k) ∷ xs) = ((b + m ≤ c) ⊎ (c + k ≤ b)) × Clear b m xs

-- No range is empty, and no two overlap.
abbrev pub AreApart : List Range → Type 0
AreApart [] = Unit
AreApart ((b, m) ∷ xs) = (0 < m) × Clear b m xs × AreApart xs

-- What is left of a range of `m` pages from `b` on, in front of `xs`.
abbrev pub remainder : (n b m : ℕ) → List Range → List Range
remainder n b m xs = elim (ltb n m) [ true ↦ (b + n, m - n) ∷ xs | false ↦ xs ]

-- The first range that is long enough, and the list without the first `n` pages of it.
pub data Fit : Type 0 where
  no_fit : Fit
  fits : (base : ℕ) → (rest : List Range) → Fit

abbrev pub behind : Range → Fit → Fit
behind r no_fit = no_fit
behind r (fits base rest) = fits base (r ∷ rest)

unfoldable pub first_fit : ℕ → List Range → Fit
first_fit n [] = no_fit
first_fit n ((b, m) ∷ xs) =
    let rest = first_fit n xs in
    elim (ltb m n) [ true ↦ behind (b, m) rest | false ↦ fits b (remainder n b m xs) ]

pub Clear-Outside : (b m p : ℕ) (xs : List Range) → Clear b m xs → b ≤ p → p < b + m → Outside p xs
Clear-Outside b m p [] c x y = tt
Clear-Outside b m p ((d, k) ∷ xs) c x y = (ground (arith, c.0), Clear-Outside b m p xs c.1 x y)

-- A part of a clear range is clear.
pub Clear-part :
    (b m c k : ℕ) (xs : List Range) → Clear b m xs → b ≤ c → c + k ≤ b + m → Clear c k xs
Clear-part b m c k [] h x y = tt
Clear-part b m c k ((d, l) ∷ xs) h x y = (ground (arith, h.0), Clear-part b m c k xs h.1 x y)
