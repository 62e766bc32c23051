-- ===== src/Serial.antt =====
-- usr/pl011/pl011.c: the ring of received characters. The registers of the device are parameters:
-- `words` is what successive reads of UARTDR yield until UARTFR says that no character is left, and
-- the write to UARTRSR clears an error in the device.
pub mod Ring
pub mod Reading
mod Examples
use bradyp_os.Base.{
  ℕ, zero, suc, ◌+◌, ◌-◌, ◌/◌, ◌%◌, Option, none, some, List, [], ◌∷◌, leb, ◌==◌, if◌then◌else◌,
}
use bradyp_os.Base.Array.{Array, store}

abbrev pub rx_ring_cap : ℕ
rx_ring_cap = 128

pub record RxRing : Type 0 where
  pub buf : Array
  pub head : ℕ
  pub tail : ℕ

unfoldable pub rxrb_len : RxRing → ℕ
rxrb_len r = if leb r.tail r.head then r.head - r.tail else rx_ring_cap - (r.tail - r.head)

unfoldable pub rxrb_free : RxRing → ℕ
unfolding rxrb_len
rxrb_free r = rx_ring_cap - rxrb_len r - 1

unfoldable pub rxrb_push : RxRing → ℕ → RxRing
unfolding store
rxrb_push r c =
    let next = (r.head + 1) % rx_ring_cap in
    record {
      buf = store r.buf r.head c;
      head = next;
      tail = if next == r.tail then (r.tail + 1) % rx_ring_cap else r.tail;
    }

-- `none` is the result -1.
unfoldable pub rxrb_pop : RxRing → Option ℕ × RxRing
rxrb_pop r =
    if r.tail == r.head
    then (none, r)
    else (some (r.buf r.tail), record r { tail = (r.tail + 1) % rx_ring_cap })

-- The loop of `uart_drain_hw_rx_to_ring`; bits 8 to 11 of a word say that the character is broken.
pub uart_drain_hw_rx_to_ring : RxRing → List ℕ → RxRing
uart_drain_hw_rx_to_ring r [] = r
uart_drain_hw_rx_to_ring r (word ∷ words) =
    let pushed = uart_drain_hw_rx_to_ring (rxrb_push r (word % 256)) words in
    let ignored = uart_drain_hw_rx_to_ring r words in
    if word / 256 % 16 == 0 then pushed else ignored

-- The loop of `uart_read_from_ring` with `n` characters to go; the list is what it copies.
pub uart_read_from_ring : RxRing → ℕ → List ℕ × RxRing
uart_read_from_ring r zero = ([], r)
uart_read_from_ring r (suc n) =
    let (popped, r') = rxrb_pop r in
    elim popped [
      | none ↦ ([], r')
      | some c ↦ (c ∷ (uart_read_from_ring r' n).0, (uart_read_from_ring r' n).1)
    ]

unfoldable pub pl011_handle_read_impl : RxRing → List ℕ → ℕ → List ℕ × RxRing
unfolding uart_drain_hw_rx_to_ring uart_read_from_ring rxrb_push rxrb_pop
pl011_handle_read_impl r words len =
    if len == 0 then ([], r) else uart_read_from_ring (uart_drain_hw_rx_to_ring r words) len
