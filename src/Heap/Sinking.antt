-- ===== src/Heap/Sinking.antt =====
-- Where `sink` of lib/heap/include/heap.inc restores the order of the heap, and where it does not:
-- it takes the right child whenever that comes before the entry, also if the left one comes first.
use native.Mathlib.Decide.{ℕ_discrete}
use bradyp_os.Base.{
  ℕ, zero, suc, ◌+◌, ◌-◌, ◌*◌, ◌/◌, ◌^◌, dec32, ◌≤◌, ◌<◌, ◌≡◌, ◌≢◌, ◌⊎◌, Bool, true, false, inl,
  inr, ◌&&◌, ltb, leb, arith, Bool-cases,
}
use bradyp_os.Base.Array.{Array, store, swap}
use bradyp_os.Heap.{Heap, sink_loop, sink, pop}
use bradyp_os.Heap.Order.{IsStrictOrder, IsHeap, parent}

-- Only the edges below `i` may be out of order, and the entries below `i` are in order with the
-- parent of `i`.
pub record IsSinking (before : ℕ → ℕ → Bool) (n : ℕ) (a : Array) (i : ℕ) : Type 0 where
  pub edges : (c : ℕ) → 0 < c → c < n → parent c ≢ i → before (a c) (a (parent c)) ≡ false
  pub bridged : (c : ℕ) → 0 < c → c < n → parent c ≡ i → 0 < i → before (a c) (a (parent i)) ≡ false

-- From entry `i` on, no left child comes before its right sibling.
abbrev pub RightFirst : (ℕ → ℕ → Bool) → ℕ → Array → ℕ → Type 0
RightFirst before n a i =
    (p : ℕ) → i ≤ p → p * 2 + 2 < n → before (a (p * 2 + 1)) (a (p * 2 + 2)) ≡ false

module _ {before : ℕ → ℕ → Bool} (o : IsStrictOrder before) (n : ℕ) (a : Array) (i : ℕ)
    (s : IsSinking before n a i) where
  swap_child :
      (m : ℕ)
      → m < n
      → 0 < m
      → parent m ≡ i
      → before (a m) (a i) ≡ true
      → ((c : ℕ) → 0 < c → c < n → parent c ≡ i → before (a c) (a m) ≡ false)
      → IsSinking before n (swap a m i) m
  unfolding swap store
  swap_child m inside pos child first least = record {
    edges = λ c p q r. ground (arith, s.edges c, s.bridged m, least c, o.asym (a m) (a i));
    bridged = λ c p q r t. ground (arith, s.edges c);
  }

RightFirst-swap :
    (before : ℕ → ℕ → Bool) (n : ℕ) (a : Array) (i m : ℕ)
    → i < m
    → RightFirst before n a i
    → RightFirst before n (swap a m i) m
unfolding swap store
RightFirst-swap before n a i m h r p q t = ground (arith, r p)

child_cases : (i c : ℕ) → 0 < c → parent c ≡ i → (c ≡ i * 2 + 1) ⊎ (c ≡ i * 2 + 2)
child_cases i c p q = omega arith

module _ {before : ℕ → ℕ → Bool} (o : IsStrictOrder before) (n : ℕ) (a : Array) (i : ℕ) where
  irrefl : (x : ℕ) → before x x ≡ false
  irrefl x = elim (Bool-cases (before x x)) [ inl e ↦ o.asym x x e | inr e ↦ e ]

  right_least :
      before (a (i * 2 + 1)) (a (i * 2 + 2)) ≡ false
      → (c : ℕ) → 0 < c
      → c < n
      → parent c ≡ i
      → before (a c) (a (i * 2 + 2)) ≡ false
  right_least r c p q e = elim (child_cases i c p e) [
    | inl l ↦ rw l r
    | inr l ↦ rw l (irrefl (a (i * 2 + 2)))
  ]

  left_least :
      before (a (i * 2 + 1)) (a i) ≡ true
      → (ltb (i * 2 + 2) n && before (a (i * 2 + 2)) (a i)) ≡ false
      → (c : ℕ) → 0 < c
      → c < n
      → parent c ≡ i
      → before (a c) (a (i * 2 + 1)) ≡ false
  left_least left no_right c p q e = elim (child_cases i c p e) [
    | inl l ↦ rw l (irrefl (a (i * 2 + 1)))
    | inr l ↦ rw l (
        ground
          (arith, o.asym (a (i * 2 + 1)) (a i), o.not_trans (a (i * 2 + 2)) (a i) (a (i * 2 + 1))))
  ]

  settled-IsHeap :
      IsSinking before n a i
      → before (a (i * 2 + 1)) (a i) ≡ false
      → (ltb (i * 2 + 2) n && before (a (i * 2 + 2)) (a i)) ≡ false
      → IsHeap before n a
  settled-IsHeap s left no_right c p q = elim (ℕ_discrete (parent c) i) [
    | no other ↦ s.edges c p q other
    | yes e ↦ elim (child_cases i c p e) [
      | inl l ↦ rw (e, l) left
      | inr l ↦ rw (e, l) (ground arith)
    ]
  ]

module _ {before : ℕ → ℕ → Bool} (o : IsStrictOrder before) where
  sink_loop-IsHeap :
      (fuel n : ℕ) (a : Array) (i : ℕ)
      → n ≤ i + fuel
      → 1 < n
      → i < n
      → IsSinking before n a i
      → RightFirst before n a i
      → IsHeap before n (sink_loop before fuel n a i).0
  unfolding sink_loop
  sink_loop-IsHeap zero n a i f two h s r c p q = absurd (omega arith)
  sink_loop-IsHeap (suc fuel) n a i f two h s r c p q = elim (Bool-cases (leb i ((n - 2) / 2))) [
    | inr leaf ↦ rw leaf (ground (arith, s.edges c))
    | inl inner ↦ elim (Bool-cases (ltb (i * 2 + 2) n && before (a (i * 2 + 2)) (a i))) [
      | inl right ↦
          rw (inner, right)
            (sink_loop-IsHeap fuel n (swap a (i * 2 + 2) i) (i * 2 + 2) (omega arith) two
              (ground arith)
              (swap_child o n a i s (i * 2 + 2) (ground arith) (omega arith) (omega arith)
                (ground arith) (right_least o n a i (r i (omega arith) (ground arith))))
              (RightFirst-swap before n a i (i * 2 + 2) (omega arith) r) c p q)
      | inr no_right ↦ elim (Bool-cases (before (a (i * 2 + 1)) (a i))) [
        | inl left ↦
            rw (inner, no_right, left)
              (sink_loop-IsHeap fuel n (swap a (i * 2 + 1) i) (i * 2 + 1) (omega arith) two
                (ground arith)
                (swap_child o n a i s (i * 2 + 1) (ground arith) (omega arith) (omega arith) left
                  (left_least o n a i left no_right))
                (RightFirst-swap before n a i (i * 2 + 1) (omega arith) r) c p q)
        | inr settled ↦
            rw (inner, no_right, settled) (settled-IsHeap o n a i s settled no_right c p q)
      ]
    ]
  ]

  -- An entry sinks to its place in a heap whose left children do not come before their right
  -- siblings.
  pub sink-IsHeap :
      (n : ℕ) (a : Array) (i : ℕ)
      → i < n
      → IsSinking before n a i
      → RightFirst before n a i
      → IsHeap before n (sink before n a i).0
  unfolding sink
  sink-IsHeap n a i h s r c p q = elim (Bool-cases (ltb n 2)) [
    | inl one ↦ absurd (ground arith)
    | inr more ↦ rw more (sink_loop-IsHeap n n a i (omega arith) (ground arith) h s r c p q)
  ]

module _ {before : ℕ → ℕ → Bool} (o : IsStrictOrder before) (h : Heap) where
  -- Popping from a heap of at least two entries, and fewer than 2 ^ 32, in which no left child
  -- comes before its right sibling gives a heap, for a strict weak order.
  pub pop-IsHeap :
      1 < h.size
      → h.size < 2 ^ 32
      → IsHeap before h.size h.items
      → RightFirst before h.size h.items 0
      → IsHeap before (pop before h).size (pop before h).items
  unfolding pop store
  pop-IsHeap some_left word heap r =
      sink-IsHeap o (dec32 h.size) (store h.items 0 (h.items (dec32 h.size))) 0 (omega arith)
        (record {
          edges = λ c p q t. ground (arith, heap c);
          bridged = λ c p q t u. absurd (omega arith);
        })
        (λ p q t. ground (arith, r p))

-- From four entries whose second comes before its third and its third before its last, `pop`
-- moves the third to the root, and the rest is no heap.
pub pop-not-IsHeap :
    (before : ℕ → ℕ → Bool) (a : Array)
    → before (a 1) (a 2) ≡ true
    → before (a 2) (a 3) ≡ true
    → ((pop before (record { size = 4; items = a })).items 0 ≡ a 2)
      × ¬ IsHeap before 3 (pop before (record { size = 4; items = a })).items
unfolding pop sink sink_loop swap store
pop-not-IsHeap before a left right = (ground arith, λ heap. ground (arith, heap 1))
