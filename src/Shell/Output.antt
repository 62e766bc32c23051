-- ===== src/Shell/Output.antt =====
-- The output of usr/bsh/bsh.c.
use bradyp_os.Base.{
  ℕ, zero, suc, ◌+◌, ◌-◌, ◌%◌, ◌^◌, ◌≤◌, ◌<◌, ◌≡◌, ◌≢◌, inl, inr, refl, ◌∙◌, true, false, some,
  List, [], ◌∷◌, ltb, ◌==◌, if◌then◌else◌, Bool-cases, ge_of_test, lt_of_test, sym, arith,
}
use bradyp_os.Shell.{Answer, chunks, term_write}

-- The chunks follow one another from `offset` to `size`, each with some bytes and at most 64.
abbrev pub Covers : (offset size : ℕ) → List (ℕ × ℕ) → Type 0
Covers offset size [] = offset ≡ size
Covers offset size ((o, n) ∷ cs) = (o ≡ offset) × (0 < n) × (n ≤ 64) × Covers (offset + n) size cs

-- Under fuel beyond the number of bytes, what is written goes out in chunks of 1 to 64 bytes, each of them
-- from where the one before ends, and the last of them to the end of the buffer.
pub chunks-Covers :
    (fuel size offset : ℕ)
    → offset ≤ size
    → size - offset < fuel
    → (cs : List (ℕ × ℕ)) × (chunks fuel size offset ≡ some cs) × Covers offset size cs
unfolding chunks
chunks-Covers zero size offset le h = absurd (omega (arith, h))
chunks-Covers (suc n) size offset le h = elim (Bool-cases (ltb offset size)) [
  | inr done ↦ ([], rw done refl, omega (arith, le, ge_of_test offset size done))
  | inl more ↦
      let lt = lt_of_test offset size more in
      let payload = if ltb 64 (size - offset) then 64 else size - offset in
      let bounds : (0 < payload) × (payload ≤ 64) × (payload ≤ size - offset) =
        (ground (arith, lt), ground arith, ground arith) in
      let (cs, run, covers) =
        chunks-Covers n size (offset + payload) (omega (arith, bounds.2, lt))
          (omega (arith, bounds.0, bounds.2, h)) in
      ((offset, payload) ∷ cs, rw (more, run) refl, (refl, bounds.0, bounds.1, covers))
]

module _ (answer : (round buf size : ℕ) → Answer) where
  last_round :
      (n round buf size : ℕ)
      → (size == 0) ≡ true
      → term_write answer (suc n) round buf size ≡ some true
  unfolding term_write
  last_round n round buf size h = rw h refl

  next_round :
      (n round buf size : ℕ)
      → (size == 0) ≡ false
      → (answer round buf size).failed ≡ false
      → term_write answer (suc n) round buf size
        ≡ term_write answer n
            (round + 1)
            ((buf + (answer round buf size).written) % 2 ^ 32)
            ((size + 2 ^ 32 - (answer round buf size).written) % 2 ^ 32)
  unfolding term_write
  next_round n round buf size h sent = rw (h, sent) refl

  -- Where the terminal takes at least one byte and no more than there are in every round, all is written
  -- under fuel beyond the number of bytes.
  pub term_write_total :
      ((round buf size : ℕ)
        → 0 < size
        → ((answer round buf size).failed ≡ false)
          × (0 < (answer round buf size).written)
          × ((answer round buf size).written ≤ size))
      → (fuel round buf size : ℕ) → size < 2 ^ 32
      → size < fuel
      → term_write answer fuel round buf size ≡ some true
  unfolding term_write
  term_write_total takes zero round buf size fits h = absurd (omega (arith, h))
  term_write_total takes (suc n) round buf size fits h = elim (Bool-cases (size == 0)) [
    | inl done ↦ rw done refl
    | inr more ↦
        let a = takes round buf size (ground (arith, more)) in
        let left = (size + 2 ^ 32 - (answer round buf size).written) % 2 ^ 32 in
        let smaller : (left < size) = omega (arith, a.1, a.2, fits) in
        rw (more, a.0)
          (term_write_total takes n (round + 1) ((buf + (answer round buf size).written) % 2 ^ 32)
            left (omega (arith, smaller, fits)) (omega (arith, smaller, h)))
  ]

  -- Whatever the labels of the answers are, an error of the terminal's among them: a write is never reported
  -- as failed unless the transfer of a message fails.
  pub term_write-ne_false :
      ((round buf size : ℕ) → (answer round buf size).failed ≡ false)
      → (fuel round buf size : ℕ) → term_write answer fuel round buf size ≢ some false
  unfolding term_write
  term_write-ne_false sent zero round buf size = λ h. cc
  term_write-ne_false sent (suc n) round buf size = λ h. elim (Bool-cases (size == 0)) [
    | inl done ↦ absurd (cc (sym (last_round n round buf size done) ∙ h))
    | inr more ↦
        term_write-ne_false sent n (round + 1) ((buf + (answer round buf size).written) % 2 ^ 32)
          ((size + 2 ^ 32 - (answer round buf size).written) % 2 ^ 32)
          (sym (next_round n round buf size more (sent round buf size)) ∙ h)
  ]
