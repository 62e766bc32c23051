-- ===== src/Serial/Ring.antt =====
-- The ring of usr/pl011/pl011.c is a queue of at most 127 characters that loses the oldest one.
use bradyp_os.Base.{
  ℕ, zero, suc, ◌+◌, ◌%◌, ◌<◌, ◌≡◌, ◌≢◌, refl, ap, inl, inr, true, false, Option, none, some, List,
  [], ◌∷◌, ◌++◌, ◌==◌, if◌then◌else◌, arith, Bool-cases, test_of_ne,
}
use bradyp_os.Base.Array.{Array, store}
use bradyp_os.Base.Lists.{length}
use bradyp_os.Serial.{RxRing, rx_ring_cap, rxrb_len, rxrb_push, rxrb_pop}

-- Both indices are inside the buffer.
pub record IsRing (r : RxRing) : Type 0 where
  pub head : r.head < rx_ring_cap
  pub tail : r.tail < rx_ring_cap

-- The `n` entries of the buffer from `p` on, around its end.
abbrev pub slice : ℕ → Array → ℕ → List ℕ
slice zero a p = []
slice (suc n) a p = a p ∷ slice n a ((p + 1) % rx_ring_cap)

-- The characters of the ring, the oldest first.
abbrev pub contents : RxRing → List ℕ
contents r = slice (rxrb_len r) r.buf r.tail

abbrev pub drop_first : List ℕ → List ℕ
drop_first [] = []
drop_first (x ∷ xs) = xs

-- The oldest character and the rest of the queue.
abbrev pub dequeue : List ℕ → Option ℕ × List ℕ
dequeue [] = (none, [])
dequeue (x ∷ xs) = (some x, xs)

-- The queue with `c` at its end, without its oldest character if it held 127.
abbrev pub enqueue : List ℕ → ℕ → List ℕ
enqueue xs c = (if length xs == 127 then drop_first xs else xs) ++ c ∷ []

length-slice : (n : ℕ) (a : Array) (p : ℕ) → length (slice n a p) ≡ n
length-slice zero a p = refl
length-slice (suc n) a p = omega (arith, length-slice n a ((p + 1) % rx_ring_cap))

slice-store :
    (n : ℕ) (a : Array) (p h c : ℕ)
    → p < rx_ring_cap
    → n < rx_ring_cap
    → h ≡ (p + n) % rx_ring_cap
    → slice (suc n) (store a h c) p ≡ slice n a p ++ c ∷ []
unfolding store
slice-store zero a p h c hp hn e =
    let at_end : p ≡ h = omega arith in ap (λ x. x ∷ []) (ground arith)
slice-store (suc n) a p h c hp hn e =
    let other : p ≢ h = omega arith in
    let here : store a h c p ≡ a p = ground arith in
    rw (here, slice-store n a ((p + 1) % rx_ring_cap) h c (omega arith) (omega arith) (omega arith))
      refl

module _ (r : RxRing) (v : IsRing r) where
  pub rxrb_len-lt : rxrb_len r < rx_ring_cap
  unfolding rxrb_len
  rxrb_len-lt = ground (arith, v.head, v.tail)

  head-rxrb_len : r.head ≡ (r.tail + rxrb_len r) % rx_ring_cap
  unfolding rxrb_len
  head-rxrb_len = ground (arith, v.head, v.tail)

  rxrb_len-push_full :
      (c : ℕ)
      → ((r.head + 1) % rx_ring_cap == r.tail) ≡ true
      → (rxrb_len r ≡ 127)
        × (rxrb_len (rxrb_push r c) ≡ 127)
        × ((rxrb_push r c).tail ≡ (r.tail + 1) % rx_ring_cap)
  unfolding rxrb_len rxrb_push
  rxrb_len-push_full c full =
      (ground (arith, v.head, v.tail), ground (arith, v.head, v.tail), ground arith)

  rxrb_len-push :
      (c : ℕ)
      → ((r.head + 1) % rx_ring_cap == r.tail) ≡ false
      → (rxrb_len r ≢ 127)
        × (rxrb_len (rxrb_push r c) ≡ suc (rxrb_len r))
        × ((rxrb_push r c).tail ≡ r.tail)
  unfolding rxrb_len rxrb_push
  rxrb_len-push c room =
      (ground (arith, v.head, v.tail), ground (arith, v.head, v.tail), ground arith)

  rxrb_push-IsRing : (c : ℕ) → IsRing (rxrb_push r c)
  unfolding rxrb_push
  rxrb_push-IsRing c = record { head = omega arith; tail = ground (arith, v.tail) }

  contents-push : (c : ℕ) → contents (rxrb_push r c) ≡ enqueue (contents r) c
  contents-push c = elim (Bool-cases ((r.head + 1) % rx_ring_cap == r.tail)) [
    | inl full ↦
        let (was, now, moved) = rxrb_len-push_full c full in
        let filled : slice 127 (store r.buf r.head c) ((r.tail + 1) % rx_ring_cap)
            ≡ slice 126 r.buf ((r.tail + 1) % rx_ring_cap) ++ c ∷ [] =
          slice-store 126 r.buf ((r.tail + 1) % rx_ring_cap) r.head c (omega arith) (omega arith)
            (omega (arith, was, head-rxrb_len)) in
        rw (now, was, moved) (unfold rxrb_push in filled)
    | inr room ↦
        let (was, now, kept) = rxrb_len-push c room in
        rw (now, kept, length-slice (rxrb_len r) r.buf r.tail, test_of_ne (rxrb_len r) 127 was)
          (unfold rxrb_push in
            slice-store (rxrb_len r) r.buf r.tail r.head c v.tail rxrb_len-lt head-rxrb_len)
  ]

  -- Pushing a character onto a ring puts it at the end of the queue, without the oldest character if
  -- there were 127, and gives a ring.
  pub rxrb_push-contents :
      (c : ℕ) → IsRing (rxrb_push r c) × (contents (rxrb_push r c) ≡ enqueue (contents r) c)
  rxrb_push-contents c = (rxrb_push-IsRing c, contents-push c)

module _ (r : RxRing) (v : IsRing r) where
  rxrb_len-empty : (r.tail == r.head) ≡ true → rxrb_len r ≡ 0
  unfolding rxrb_len
  rxrb_len-empty e = ground arith

  rxrb_len-pop : (r.tail == r.head) ≡ false → rxrb_len r ≡ suc (rxrb_len (rxrb_pop r).1)
  unfolding rxrb_len rxrb_pop
  rxrb_len-pop e = ground (arith, v.head, v.tail)

  rxrb_pop-IsRing : IsRing (rxrb_pop r).1
  unfolding rxrb_pop
  rxrb_pop-IsRing = record { head = ground (arith, v.head); tail = ground (arith, v.tail) }

  contents-pop : ((rxrb_pop r).0, contents (rxrb_pop r).1) ≡ dequeue (contents r)
  contents-pop = elim (Bool-cases (r.tail == r.head)) [
    | inl empty ↦
        rw (rxrb_len-empty empty) (unfold rxrb_pop in rw (empty, rxrb_len-empty empty) refl)
    | inr full ↦ rw (rxrb_len-pop full) (unfold rxrb_pop in rw full refl)
  ]

  -- Popping from a ring yields the oldest character, or nothing where the ring is empty, leaves the
  -- other characters in order, and gives a ring.
  pub rxrb_pop-contents :
      IsRing (rxrb_pop r).1 × (((rxrb_pop r).0, contents (rxrb_pop r).1) ≡ dequeue (contents r))
  rxrb_pop-contents = (rxrb_pop-IsRing, contents-pop)
