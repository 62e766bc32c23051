-- ===== src/Fpage/Laws.antt =====
-- Flexpages and the messages that carry them, include/l4/fpage.h, space.h and ipc.h.
use bradyp_os.Base.{
  ap, ◌∙◌, ℕ, ◌+◌, ◌-◌, ◌*◌, ◌%◌, ◌^◌, ◌≤◌, ◌<◌, ◌≡◌, ◌⊎◌, refl, some, zero, suc, ltb, lt_of_test,
  ge_of_test, Bool-cases, inl, inr, arith,
}
use native.Mathlib.Nat.{pow-le-pow_right}
use bradyp_os.Fpage.{
  Fpage, raw, of_raw, shifted_one, size, grant_item, grant_item_snd_fpage, grant_item_snd_base,
  fpage,
}

-- The fields fit their bits.
pub record IsWord (f : Fpage) : Type 0 where
  pub perm_fits : f.perm < 16
  pub s_fits : f.s < 64
  pub b_fits : f.b < 2 ^ 22

-- A flexpage whose fields fit comes back from its word and from a grant item, and the item gives back
-- a base that is a multiple of 512.
pub grant_item_roundtrip :
    (f : Fpage) (page : ℕ)
    → IsWord f
    → page < 2 ^ 22
    → (of_raw (raw f) ≡ f)
      × (grant_item_snd_fpage (grant_item f (page * 512)) ≡ f)
      × (grant_item_snd_base (grant_item f (page * 512)) ≡ page * 512)
unfolding of_raw raw grant_item grant_item_snd_fpage grant_item_snd_base
grant_item_roundtrip f page w p = ground arith

-- A shift of a size field of at most 22 is defined.
pub shifted_one-small : (k : ℕ) → k < 23 → shifted_one (k + 9) ≡ some (2 ^ (k + 9))
unfolding shifted_one
shifted_one-small k h = ground (arith, h)

pub pow_pos : (k : ℕ) → 0 < 2 ^ k
pow_pos k =
    let ge : 2 ^ 0 ≤ 2 ^ k = pow-le-pow_right {n = 2} (omega arith) {i = 0} {j = k} (omega arith) in
    omega (arith, ge)

-- A word has `n` leading zeros.
abbrev pub LeadingZeros : ℕ → ℕ → Type 0
LeadingZeros n v = (n < 32) × (2 ^ (31 - n) ≤ v) × (v < 2 ^ (32 - n))

few_zeros : (n v : ℕ) → 512 ≤ v → v < 2 ^ (32 - n) → n < 23
few_zeros n v h k = elim (Bool-cases (ltb n 23)) [
  | inl few ↦ lt_of_test n 23 few
  | inr many ↦
      let le : 2 ^ (32 - n) ≤ 2 ^ 9 =
        pow-le-pow_right {n = 2} (omega arith) {i = 32 - n} {j = 9}
          (omega (arith, ge_of_test n 23 many)) in
      absurd (omega (arith, le))
]

-- 18 digits more.
pow_quotient : (n : ℕ) → n < 5 → 2 ^ (4 - n + 9) * 2 ^ 18 ≡ 2 ^ (31 - n)
pow_quotient zero h = refl
pow_quotient (suc zero) h = refl
pow_quotient (suc (suc zero)) h = refl
pow_quotient (suc (suc (suc zero))) h = refl
pow_quotient (suc (suc (suc (suc zero)))) h = refl
pow_quotient (suc (suc (suc (suc (suc n))))) h = absurd (omega (arith, h))

module _ (clz : ℕ → ℕ) (base v : ℕ) where
  fpage_field : (fpage clz base v).s ≡ (4 + 2 ^ 32 - clz v) % 2 ^ 32 % 64
  unfolding fpage
  fpage_field = refl

  large_field : clz v < 5 → (fpage clz base v).s ≡ 4 - clz v
  large_field h = omega (arith, h, fpage_field)

  large_size : clz v < 5 → size (fpage clz base v) ≡ some (2 ^ (4 - clz v + 9))
  unfolding size
  large_size h =
      ap (λ s. shifted_one (s + 9)) (large_field h) ∙ shifted_one-small (4 - clz v) (omega arith)

  -- Where `clz` counts the leading zeros of a size of at least a page, as __builtin_clz does, the flexpage
  -- that `L4_fpage` makes does not have this size: below 2 ^ 27 its size field asks `L4_size` for a shift
  -- by 32 or more, which C leaves undefined, and from there on `L4_size` gives at most the size divided by
  -- 2 ^ 18.
  pub size-fpage_wrong :
      LeadingZeros (clz v) v
      → 512 ≤ v
      → ((v < 2 ^ 27) × (32 ≤ (fpage clz base v).s + 9))
        ⊎ ((2 ^ 27 ≤ v) × ((n : ℕ) × (size (fpage clz base v) ≡ some n) × (n * 2 ^ 18 ≤ v)))
  size-fpage_wrong z h = elim (Bool-cases (ltb (clz v) 5)) [
    | inl few ↦
        let small = lt_of_test (clz v) 5 few in
        let least : 2 ^ 27 ≤ 2 ^ (31 - clz v) =
          pow-le-pow_right {n = 2} (omega arith) {i = 27} {j = 31 - clz v} (omega (arith, small)) in
        inr (
          omega (arith, least, z.1),
          (2 ^ (4 - clz v + 9), large_size small, omega (arith, pow_quotient (clz v) small, z.1)),
        )
    | inr many ↦
        let least = ge_of_test (clz v) 5 many in
        let most = few_zeros (clz v) v h z.2 in
        let bound : 2 ^ (32 - clz v) ≤ 2 ^ 27 =
          pow-le-pow_right {n = 2} (omega arith) {i = 32 - clz v} {j = 27} (omega (arith, least)) in
        inl (omega (arith, bound, z.2), omega (arith, fpage_field, least, most))
  ]
