-- ===== src/Memory/Copies.antt =====
-- What `memcpy` of words does, where the regions do not overlap.
use bradyp_os.Base.{ℕ, zero, suc, ◌+◌, ◌≤◌, ◌<◌, ◌≡◌, ◌⊎◌, refl, arith}
use bradyp_os.Base.Array.{Array, store}
use bradyp_os.Memory.{copy_words}

-- Words outside the target keep what they hold.
pub copy_words-outside :
    (n dst src : ℕ) (m : Array) (a : ℕ) → (a < dst) ⊎ (dst + n ≤ a) → copy_words n dst src m a ≡ m a
unfolding copy_words store
copy_words-outside zero dst src m a out = refl
copy_words-outside (suc n) dst src m a out =
    ground (arith, copy_words-outside n (dst + 1) (src + 1) (store m dst (m src)) a)

-- The target holds what the source held.
pub copy_words-inside :
    (n dst src : ℕ) (m : Array) (i : ℕ)
    → (src + n ≤ dst) ⊎ (dst + n ≤ src)
    → i < n
    → copy_words n dst src m (dst + i) ≡ m (src + i)
unfolding copy_words store
copy_words-inside zero dst src m i apart p = absurd (omega arith)
copy_words-inside (suc n) dst src m zero apart p =
    ground (arith, copy_words-outside n (dst + 1) (src + 1) (store m dst (m src)) (dst + 0))
copy_words-inside (suc n) dst src m (suc i) apart p =
    ground (arith, copy_words-inside n (dst + 1) (src + 1) (store m dst (m src)) i)
