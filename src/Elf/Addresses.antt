-- ===== src/Elf/Addresses.antt =====
-- The translation of linked addresses in lib/elf/elf.c.
use bradyp_os.Base.{
  ℕ, zero, suc, ◌+◌, ◌-◌, ◌%◌, ◌^◌, ◌≤◌, ◌<◌, ◌≡◌, ◌⊎◌, inl, inr, refl, sym, ◌&&◌, ltb, leb, ◌==◌,
  Bool-cases, eq_of_test, ne_of_test, arith,
}
use mathlib.Core.Path.{subst}
use bradyp_os.Elf.{Segment, ElfState, loaded_from, linked_to_loaded_addr}

-- The address is linked to this segment.
abbrev pub Contains : Segment → (addr : ℕ) → Type 0
Contains segment addr =
    (segment.linked_addr ≤ addr) × (addr < (segment.linked_addr + segment.size) % 2 ^ 32)

-- Where an address of the segment was loaded.
abbrev pub at_segment : Segment → (addr : ℕ) → ℕ
at_segment segment addr = (segment.loaded_addr + (addr - segment.linked_addr)) % 2 ^ 32

-- The result is the address in the first segment from `i` on that has it, or NULL where none has it.
abbrev pub IsTranslated : (n i : ℕ) → (ℕ → Segment) → (addr result : ℕ) → Type 0
IsTranslated n i segments addr result =
    ((result ≡ 0) × ((j : ℕ) → i ≤ j → j < i + n → Contains (segments j) addr → ⊥))
    ⊎ ((k : ℕ) × (i ≤ k)
        × (k < i + n)
        × Contains (segments k) addr
        × (result ≡ at_segment (segments k) addr)
        × ((j : ℕ) → i ≤ j → j < k → Contains (segments j) addr → ⊥))

Contains-cases :
    (segment : Segment) (addr : ℕ) → Contains segment addr ⊎ (Contains segment addr → ⊥)
Contains-cases segment addr = elim (Bool-cases (leb segment.linked_addr addr)) [
  | inl above ↦ elim (Bool-cases (ltb addr ((segment.linked_addr + segment.size) % 2 ^ 32))) [
    | inl below ↦ inl (ground (arith, above), ground (arith, below))
    | inr out ↦ inr (λ c. ground (arith, out, c.1))
  ]
  | inr under ↦ inr (λ c. ground (arith, under, c.0))
]

module _ (segments : ℕ → Segment) (addr : ℕ) where
  loaded_here :
      (n i : ℕ)
      → Contains (segments i) addr
      → loaded_from (suc n) i segments addr ≡ at_segment (segments i) addr
  unfolding loaded_from
  loaded_here n i c = ground (arith, c.0, c.1)

  loaded_later :
      (n i : ℕ)
      → (Contains (segments i) addr → ⊥)
      → loaded_from (suc n) i segments addr ≡ loaded_from n (i + 1) segments addr
  unfolding loaded_from
  loaded_later n i c =
      elim (Bool-cases (
        leb (segments i).linked_addr addr
        && ltb addr (((segments i).linked_addr + (segments i).size) % 2 ^ 32))) [
          | inl inside ↦ absurd (c (ground (arith, inside), ground (arith, inside)))
          | inr outside ↦ rw outside refl
        ]

  loaded_none : (i : ℕ) → loaded_from zero i segments addr ≡ 0
  unfolding loaded_from
  loaded_none i = refl

  earlier :
      (i b : ℕ)
      → (Contains (segments i) addr → ⊥)
      → ((j : ℕ) → i + 1 ≤ j → j < b → Contains (segments j) addr → ⊥)
      → (j : ℕ) → i ≤ j
      → j < b
      → Contains (segments j) addr
      → ⊥
  earlier i b absent rest j le lt c = elim (Bool-cases (i == j)) [
    | inl same ↦ absent (subst (λ k. Contains (segments k) addr) (sym (eq_of_test i j same)) c)
    | inr other ↦ rest j (omega (arith, le, ne_of_test i j other)) lt c
  ]

  extend :
      (n i r : ℕ)
      → (Contains (segments i) addr → ⊥)
      → IsTranslated n (i + 1) segments addr r
      → IsTranslated (suc n) i segments addr r
  extend n i r absent (inl (nothing, rest)) =
      inl (nothing, earlier i (i + suc n) absent (λ j le lt. rest j le (omega (arith, lt))))
  extend n i r absent (inr (k, le, lt, here, result, rest)) =
      inr (k, omega (arith, le), omega (arith, lt), here, result, earlier i k absent rest)

  loaded_from-IsTranslated :
      (n i : ℕ) → IsTranslated n i segments addr (loaded_from n i segments addr)
  loaded_from-IsTranslated zero i = inl (loaded_none i, λ j le lt. absurd (omega (arith, le, lt)))
  loaded_from-IsTranslated (suc n) i = elim (Contains-cases (segments i) addr) [
    | inl here ↦ inr (
      i,
      omega arith,
      omega arith,
      here,
      loaded_here n i here,
      λ j le lt. absurd (omega (arith, le, lt)),
    )
    | inr not_here ↦
        rw (loaded_later n i not_here) (extend n i _ not_here (loaded_from-IsTranslated n (i + 1)))
  ]

-- An address of the file is translated by the first segment that it is linked to, with the same distance
-- from the segment's start, and to NULL exactly where it is linked to no segment.
pub linked_to_loaded_addr-IsTranslated :
    (s : ElfState) (addr : ℕ)
    → IsTranslated s.num_segments 0 s.segments addr (linked_to_loaded_addr s addr)
unfolding linked_to_loaded_addr
linked_to_loaded_addr-IsTranslated s addr =
    loaded_from-IsTranslated s.segments addr s.num_segments 0
