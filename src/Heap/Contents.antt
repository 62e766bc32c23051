-- ===== src/Heap/Contents.antt =====
-- What the heap operations of lib/heap/include/heap.inc do to the collection of entries.
use native.Mathlib.Numerals.{add-one}
use bradyp_os.Base.{
  ℕ, zero, suc, ◌+◌, ◌-◌, ◌*◌, ◌/◌, ◌^◌, ◌≤◌, ◌<◌, ◌≡◌, ◌⊎◌, inl, inr, ap, sym, ◌∙◌, refl, dec32,
  Bool, arith, ◌==◌, bit,
}
use bradyp_os.Base.Array.{
  Array, store, swap, count, count-store, count-store_ge, count-swap, store_self,
}
use bradyp_os.Heap.{Heap, fail, swim_loop, swim, sink_loop, sink, insert, delete, pop}

le_cases : (i m : ℕ) → i ≤ m → (i < m) ⊎ (i ≡ m)
le_cases i m h = ground arith

module _ (before : ℕ → ℕ → Bool) (x : ℕ) where
  count-swim_loop :
      (fuel : ℕ) (a : Array) (i n : ℕ)
      → i < n
      → count x (swim_loop before fuel a i).0 n ≡ count x a n
  unfolding swim_loop
  count-swim_loop zero a i n h = refl
  count-swim_loop (suc fuel) a i n h = ground (
    arith,
    count-swim_loop fuel (swap a i ((i - 1) / 2)) ((i - 1) / 2) n,
    count-swap x a i ((i - 1) / 2) n,
  )

  count-sink_loop :
      (fuel n : ℕ) (a : Array) (i : ℕ)
      → 1 < n
      → i < n
      → count x (sink_loop before fuel n a i).0 n ≡ count x a n
  unfolding sink_loop
  count-sink_loop zero n a i m h = refl
  count-sink_loop (suc fuel) n a i m h = ground (
    arith,
    count-sink_loop fuel n (swap a (i * 2 + 2) i) (i * 2 + 2),
    count-sink_loop fuel n (swap a (i * 2 + 1) i) (i * 2 + 1),
    count-swap x a (i * 2 + 2) i n,
    count-swap x a (i * 2 + 1) i n,
  )

  pub count-swim : (a : Array) (i n : ℕ) → i < n → count x (swim before a i).0 n ≡ count x a n
  unfolding swim
  count-swim a i n h = ground (arith, count-swim_loop i a i n)

  pub count-sink :
      (n : ℕ) (a : Array) (i : ℕ) → i < n → count x (sink before n a i).0 n ≡ count x a n
  unfolding sink
  count-sink n a i h = ground (arith, count-sink_loop n n a i)

module _ (before : ℕ → ℕ → Bool) (x : ℕ) where
  -- At the end of the heap there is nothing to sink past.
  sink_end : (n : ℕ) (a : Array) → (sink before n a n).0 ≡ a
  unfolding sink sink_loop
  sink_end zero a = refl
  sink_end (suc n) a = ground arith

  -- The last entry takes the place of entry `i`.
  count-replace :
      (m : ℕ) (a : Array) (i : ℕ)
      → i ≤ m
      → count x (sink before m (store a i (a m)) i).0 m + bit (a i == x) ≡ count x a (suc m)
  unfolding count
  count-replace m a i h = elim (le_cases i m h) [
    | inl below ↦
        omega
          (arith, count-sink before x m (store a i (a m)) i below, count-store x a i (a m) m below)
    | inr e ↦ rw (e, sink_end) (omega (arith, count-store_ge x a m (a m) m (omega arith)))
  ]

-- Conservation: every operation but the value that it adds or removes keeps how often each value
-- stands in the heap.
module _ (before : ℕ → ℕ → Bool) (x : ℕ) (h : Heap) where
  -- Inserting into a heap that is not full adds one occurrence of the value, and none of
  -- another value.
  pub count-insert :
      (cap v : ℕ)
      → h.size < cap
      → count x (insert before cap h v).0.items (insert before cap h v).0.size
        ≡ count x h.items h.size + bit (v == x)
  unfolding insert count
  count-insert cap v room = ground (
    arith,
    count-swim before x (store h.items h.size v) h.size (suc h.size),
    count-store_ge x h.items h.size v h.size,
    store_self h.items h.size v,
    add-one h.size,
  )

  pub count-insert_full : (cap v : ℕ) → h.size ≡ cap → insert before cap h v ≡ (h, fail)
  unfolding insert
  count-insert_full cap v full = ground arith

  -- Deleting an entry of the heap, of fewer than 2 ^ 32, takes one occurrence of its value
  -- away, and none of another value.
  pub count-delete :
      (i : ℕ)
      → i < h.size
      → h.size < 2 ^ 32
      → count x (delete before h i).items (delete before h i).size + bit (h.items i == x)
        ≡ count x h.items h.size
  unfolding delete
  count-delete i inside word =
      let last : h.size ≡ suc (dec32 h.size) = omega arith in
      count-replace before x (dec32 h.size) h.items i (omega arith)
      ∙ ap (count x h.items) (sym last)

  -- Popping from a heap that is not empty, of fewer than 2 ^ 32 entries, takes one occurrence
  -- of the root's value away, and none of another value.
  pub count-pop :
      0 < h.size
      → h.size < 2 ^ 32
      → count x (pop before h).items (pop before h).size + bit (h.items 0 == x)
        ≡ count x h.items h.size
  unfolding pop
  count-pop some_left word =
      let last : h.size ≡ suc (dec32 h.size) = omega arith in
      count-replace before x (dec32 h.size) h.items 0 (omega arith)
      ∙ ap (count x h.items) (sym last)
