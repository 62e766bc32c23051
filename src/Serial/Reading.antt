-- ===== src/Serial/Reading.antt =====
-- Draining the device into the ring of usr/pl011/pl011.c, and reading from the ring.
use bradyp_os.Base.{
  ℕ, zero, suc, ◌/◌, ◌%◌, ◌≡◌, ◌≢◌, refl, sym, ap, ◌∙◌, inl, inr, Option, none, some, List, [], ◌∷◌,
  ◌==◌, if◌then◌else◌, Bool-cases, Option-cases, test_of_ne,
}
use bradyp_os.Serial.{
  RxRing, rxrb_push, rxrb_pop, uart_drain_hw_rx_to_ring, uart_read_from_ring,
  pl011_handle_read_impl,
}
use bradyp_os.Serial.Ring.{
  IsRing, contents, enqueue, dequeue, rxrb_push-contents, rxrb_pop-contents,
}

-- The first `n` characters of a queue, and the rest.
abbrev pub first_of : ℕ → List ℕ → List ℕ
first_of zero xs = []
first_of (suc n) [] = []
first_of (suc n) (x ∷ xs) = x ∷ first_of n xs

abbrev pub rest_of : ℕ → List ℕ → List ℕ
rest_of zero xs = xs
rest_of (suc n) [] = []
rest_of (suc n) (x ∷ xs) = rest_of n xs

-- The queue after the sound characters of `words` have come in.
abbrev pub receive : List ℕ → List ℕ → List ℕ
receive xs [] = xs
receive xs (word ∷ words) =
    if word / 256 % 16 == 0 then receive (enqueue xs (word % 256)) words else receive xs words

-- Draining the device puts the sound characters at the end of the queue, in order.
drain-contents :
    (words : List ℕ) (r : RxRing)
    → IsRing r
    → IsRing (uart_drain_hw_rx_to_ring r words)
      × (contents (uart_drain_hw_rx_to_ring r words) ≡ receive (contents r) words)
unfolding uart_drain_hw_rx_to_ring
drain-contents [] r v = (v, refl)
drain-contents (word ∷ words) r v = elim (Bool-cases (word / 256 % 16 == 0)) [
  | inl sound ↦
      let (v', e) = rxrb_push-contents r v (word % 256) in
      rw (sound, ← e) (drain-contents words (rxrb_push r (word % 256)) v')
  | inr broken ↦ rw broken (drain-contents words r v)
]

dequeue_inv_none :
    (xs : List ℕ) {o : Option ℕ} {ys : List ℕ}
    → (o, ys) ≡ dequeue xs
    → o ≡ none
    → (xs ≡ []) × (ys ≡ [])
dequeue_inv_none [] h e = (refl, ap (λ q. q.1) h)
dequeue_inv_none (x ∷ xs) h e = absurd (let same = ap (λ q. q.0) h in cc)

dequeue_inv_some :
    (xs : List ℕ) {o : Option ℕ} {ys : List ℕ} {c : ℕ}
    → (o, ys) ≡ dequeue xs
    → o ≡ some c
    → xs ≡ c ∷ ys
dequeue_inv_some [] h e = absurd (let same = ap (λ q. q.0) h in cc)
dequeue_inv_some (x ∷ xs) {ys = ys} {c = c} h e =
    let same : some c ≡ some x = sym e ∙ ap (λ q. q.0) h in
    let here : x ≡ c = cc in let rest : xs ≡ ys = sym (ap (λ q. q.1) h) in rw (here, rest) refl

-- Reading copies the oldest characters and leaves the others.
read-contents :
    (n : ℕ) (r : RxRing)
    → IsRing r
    → IsRing (uart_read_from_ring r n).1
      × ((uart_read_from_ring r n).0 ≡ first_of n (contents r))
      × (contents (uart_read_from_ring r n).1 ≡ rest_of n (contents r))
unfolding uart_read_from_ring
read-contents zero r v = (v, refl, refl)
read-contents (suc n) r v =
    let (v', e) = rxrb_pop-contents r v in
    elim (Option-cases (rxrb_pop r).0) [
      | inl empty ↦
          let (before, after) = dequeue_inv_none (contents r) e empty in
          rw (uart_read_from_ring, empty, before, after) (v', refl, refl)
      | inr (c, got) ↦
          let queue = dequeue_inv_some (contents r) {c = c} e got in
          let (v'', copied, left) = read-contents n (rxrb_pop r).1 v' in
          rw (uart_read_from_ring, got, queue) (v'', ap (λ xs. c ∷ xs) copied, left)
    ]

-- A read of at least one character first takes in what the device has received, copies the oldest
-- characters of the queue, at most `len`, and leaves the others in order.
pub read_impl-contents :
    (r : RxRing) (words : List ℕ) (len : ℕ)
    → IsRing r
    → len ≢ 0
    → IsRing (pl011_handle_read_impl r words len).1
      × ((pl011_handle_read_impl r words len).0 ≡ first_of len (receive (contents r) words))
      × (contents (pl011_handle_read_impl r words len).1 ≡ rest_of len (receive (contents r) words))
unfolding pl011_handle_read_impl
read_impl-contents r words len v ne =
    let (v', e) = drain-contents words r v in
    rw (test_of_ne len 0 ne, ← e) (read-contents len (uart_drain_hw_rx_to_ring r words) v')
