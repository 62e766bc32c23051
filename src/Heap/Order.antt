-- ===== src/Heap/Order.antt =====
-- The order of the heap of lib/heap/include/heap.inc, and how `swim` restores it.
use native.Mathlib.Numerals.{add-one}
use bradyp_os.Base.{
  ℕ, zero, suc, ◌-◌, ◌/◌, ◌≤◌, ◌<◌, ◌≡◌, ◌≢◌, Bool, true, false, inl, inr, ◌&&◌, ltb, ◌==◌, arith,
  Bool-cases,
}
use bradyp_os.Base.Array.{Array, store, swap}
use bradyp_os.Heap.{Heap, swim_loop, swim, insert}

-- What `HEAP_COMPARE` promises: a strict weak order.
pub record IsStrictOrder (before : ℕ → ℕ → Bool) : Type 0 where
  pub asym : (a b : ℕ) → before a b ≡ true → before b a ≡ false
  pub not_trans : (a b c : ℕ) → before a b ≡ false → before b c ≡ false → before a c ≡ false

abbrev pub parent : ℕ → ℕ
parent i = (i - 1) / 2

-- No entry of the first `n` comes before its parent.
abbrev pub IsHeap : (ℕ → ℕ → Bool) → ℕ → Array → Type 0
IsHeap before n a = (c : ℕ) → 0 < c → c < n → before (a c) (a (parent c)) ≡ false

-- Only the edge above `i` may be out of order, and the entries below `i` are in order with the
-- parent of `i`.
record IsSwimming (before : ℕ → ℕ → Bool) (n : ℕ) (a : Array) (i : ℕ) : Type 0 where
  edges : (c : ℕ) → 0 < c → c < n → c ≢ i → before (a c) (a (parent c)) ≡ false
  bridged : (c : ℕ) → 0 < c → c < n → parent c ≡ i → 0 < i → before (a c) (a (parent i)) ≡ false

module _ {before : ℕ → ℕ → Bool} (o : IsStrictOrder before) where
  swap-IsSwimming :
      (n : ℕ) (a : Array) (i : ℕ)
      → i < n
      → 0 < i
      → before (a i) (a (parent i)) ≡ true
      → IsSwimming before n a i
      → IsSwimming before n (swap a i (parent i)) (parent i)
  unfolding swap store
  swap-IsSwimming n a i hi pos rises s = record {
    edges = λ c p q r. ground (
      arith,
      s.edges c,
      s.bridged c,
      o.asym (a i) (a (parent i)),
      o.not_trans (a c) (a (parent i)) (a i),
    );
    bridged = λ c p q r t. ground (
      arith,
      s.edges c,
      s.edges (parent i),
      o.not_trans (a c) (a (parent i)) (a (parent (parent i))),
    );
  }

  swim_loop-IsHeap :
      (fuel n : ℕ) (a : Array) (i : ℕ)
      → i ≤ fuel
      → i < n
      → IsSwimming before n a i
      → IsHeap before n (swim_loop before fuel a i).0
  unfolding swim_loop
  swim_loop-IsHeap zero n a i f h s c p q = s.edges c p q (omega arith)
  swim_loop-IsHeap (suc fuel) n a i f h s c p q =
      elim (Bool-cases (ltb 0 i && before (a i) (a (parent i)))) [
        | inl rises ↦ rw rises (
            swim_loop-IsHeap fuel n (swap a i (parent i)) (parent i) (omega (arith, pos rises))
              (omega arith) (swap-IsSwimming n a i h (pos rises) (ground arith) s) c p q)
        | inr settled ↦ rw settled (ground (arith, s.edges c))
      ]
    where
      pos : ltb 0 i && before (a i) (a (parent i)) ≡ true → 0 < i
      pos e = ground arith

  pub swim-IsHeap :
      (n : ℕ) (a : Array) → IsHeap before n a → IsHeap before (suc n) (swim before a n).0
  unfolding swim
  swim-IsHeap n a h = elim (Bool-cases (n == 0)) [
    | inl e ↦ rw e (λ c p q. ground arith)
    | inr e ↦ rw e (
        swim_loop-IsHeap n (suc n) a n (omega arith) (omega arith) (record {
          edges = λ c p q r. h c p (omega arith);
          bridged = λ c p q r t. absurd (omega arith);
        }))
  ]

  -- Inserting into a heap that is not full gives a heap, for a strict weak order.
  pub insert-IsHeap :
      (cap : ℕ) (h : Heap) (v : ℕ)
      → h.size < cap
      → IsHeap before h.size h.items
      → IsHeap before (insert before cap h v).0.size (insert before cap h v).0.items
  unfolding insert store
  insert-IsHeap cap h v room heap =
      let open_slot : (h.size == cap) ≡ false = ground arith in
      rw (open_slot, add-one h.size)
        (swim-IsHeap h.size (store h.items h.size v) (λ c p q. ground (arith, heap c)))
