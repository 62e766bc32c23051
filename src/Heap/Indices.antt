-- ===== src/Heap/Indices.antt =====
-- Where `sink` of lib/heap/include/heap.inc leaves an entry.
use bradyp_os.Base.{ℕ, zero, suc, ◌+◌, ◌*◌, ◌<◌, Bool, arith}
use bradyp_os.Base.Array.{Array, swap}
use bradyp_os.Heap.{sink_loop, sink}

module _ (before : ℕ → ℕ → Bool) where
  sink_loop-lt :
      (fuel n : ℕ) (a : Array) (i : ℕ) → 1 < n → i < n → (sink_loop before fuel n a i).1 < n
  unfolding sink_loop
  sink_loop-lt zero n a i m h = h
  sink_loop-lt (suc fuel) n a i m h = ground (
    arith,
    sink_loop-lt fuel n (swap a (i * 2 + 2) i) (i * 2 + 2),
    sink_loop-lt fuel n (swap a (i * 2 + 1) i) (i * 2 + 1),
  )

  -- The entry stays in the heap.
  pub sink-lt : (n : ℕ) (a : Array) (i : ℕ) → i < n → (sink before n a i).1 < n
  unfolding sink
  sink-lt n a i h = ground (arith, sink_loop-lt n n a i)
