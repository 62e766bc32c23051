-- ===== src/Romfs/Text.antt =====
-- Texts that end with a zero byte, and `strcmp` of lib/romfs/romfs.c on them.
use bradyp_os.Base.{
  ℕ, ◌≡◌, ◌≢◌, ◌↔◌, inl, inr, refl, some, List, [], ◌∷◌, ◌++◌, ◌==◌, Bool-cases, eq_of_test,
  ne_of_test, arith,
}
use bradyp_os.Romfs.{strcmp}

-- No character is the zero byte.
abbrev pub IsPlain : List ℕ → Type 0
IsPlain [] = Unit
IsPlain (c ∷ cs) = (c ≢ 0) × IsPlain cs

-- The bytes hold the text, its end, and something behind.
pub record Spells (bytes text : List ℕ) : Type 0 where
  pub behind : List ℕ
  pub plain : IsPlain text
  pub written : bytes ≡ text ++ 0 ∷ behind

compare_texts :
    (s t p q : List ℕ)
    → IsPlain s
    → IsPlain t
    → (x y : ℕ) × (strcmp (s ++ 0 ∷ p) (t ++ 0 ∷ q) ≡ some (x, y)) × ((x ≡ y) ↔ (s ≡ t))
unfolding strcmp
compare_texts [] [] p q hs ht = (0, 0, refl, ((λ _. refl), (λ _. refl)))
compare_texts [] (c ∷ t) p q hs ht = (0, c, refl, ((λ e. ground (arith, ht.0)), (λ e. cc)))
compare_texts (b ∷ s) [] p q hs ht =
    (b, 0, ground (arith), ((λ e. ground (arith, hs.0)), (λ e. cc)))
compare_texts (b ∷ s) (c ∷ t) p q hs ht = elim (Bool-cases (b == c)) [
  | inl same ↦
      let (x, y, run, iff) = compare_texts s t p q hs.1 ht.1 in
      (
        x,
        y,
        ground (arith, hs.0, run),
        ((λ e. cc (eq_of_test b c same, iff.0 e)), (λ (e : b ∷ s ≡ c ∷ t). iff.1 (cc))),
      )
  | inr other ↦ (
    b,
    c,
    ground (arith, hs.0, ht.0),
    ((λ e. absurd (ne_of_test b c other e)), (λ (e : b ∷ s ≡ c ∷ t). cc)),
  )
]

-- On bytes that hold two texts with their ends, `strcmp` ends, and the difference that it gives is zero
-- exactly if the texts are the same, whatever stands behind the ends.
pub strcmp-equal :
    (xs ys : List ℕ) {s t : List ℕ}
    → Spells xs s
    → Spells ys t
    → (x y : ℕ) × (strcmp xs ys ≡ some (x, y)) × ((x ≡ y) ↔ (s ≡ t))
strcmp-equal xs ys {s} {t} a b =
    rw (a.written, b.written) (compare_texts s t a.behind b.behind a.plain b.plain)
