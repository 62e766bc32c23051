-- ===== src/Ipc/Written.antt =====
-- The memory after `copy_payload` of kern/syscall/ipc.c has written a message of untyped words. `t`, `f`
-- and `s` are the first words of the UTCBs of the receiver and the sender and of the receiver's stack.
use bradyp_os.Base.{ℕ, ◌+◌, ◌-◌, ◌≤◌, ◌<◌, ◌≡◌, ◌≢◌, ◌⊎◌, arith}
use bradyp_os.Base.Array.{Array, store}
use bradyp_os.Memory.{copy_words}
use bradyp_os.Memory.Copies.{copy_words-inside, copy_words-outside}

-- The words `[a, a + n)` and `[b, b + m)` do not overlap.
abbrev pub Apart : (a n b m : ℕ) → Type 0
Apart a n b m = (a + n ≤ b) ⊎ (b + m ≤ a)

-- The memory after the writes of a message: words, sender, tag and result.
module _ (m : Array) (t f s u gid header result : ℕ) where
  unfoldable pub written : Array
  unfolding store copy_words
  written =
      store (store (store (copy_words u (t + 12) (f + 12) m) (t + 8) gid) (t + 11) header) (s + 0)
        result

  pub written-word :
      (i : ℕ)
      → Apart f 35 t 35
      → Apart s 8 t 35
      → u ≤ 16
      → 1 ≤ i
      → i ≤ u
      → written (t + (11 + i)) ≡ m (f + (11 + i))
  unfolding written store
  written-word i apart stack short p q =
      let dst : t + (11 + i) ≡ t + 12 + (i - 1) = omega arith in
      let src : f + (11 + i) ≡ f + 12 + (i - 1) = omega arith in
      let moved = copy_words-inside u (t + 12) (f + 12) m (i - 1) (ground arith) (omega arith) in
      rw (dst, src) (ground (arith, moved))

  pub written-header : Apart s 8 t 35 → written (t + 11) ≡ header
  unfolding written store
  written-header stack = ground arith

  pub written-sender : Apart s 8 t 35 → written (t + 8) ≡ gid
  unfolding written store
  written-sender stack = ground arith

  pub written-result : written (s + 0) ≡ result
  unfolding written store
  written-result = ground arith

  pub written-elsewhere :
      (a : ℕ) → a ≢ s → a ≢ t + 8 → (a < t + 11) ⊎ (t + (11 + u) < a) → written a ≡ m a
  unfolding written store
  written-elsewhere a p q out =
      ground (arith, copy_words-outside u (t + 12) (f + 12) m a (ground arith))
