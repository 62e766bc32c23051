-- ===== src/Heap.antt =====
-- lib/heap/include/heap.inc: the array heap that the scheduler instantiates. The macro argument
-- HEAP_COMPARE is the parameter `before`, HEAP_SIZE is the argument `cap` of `insert`; the values
-- are numbers. A function that changes the static state returns the new state.
use bradyp_os.Base.{
  ℕ, zero, suc, ◌+◌, ◌-◌, ◌*◌, ◌/◌, ◌^◌, Bool, ◌&&◌, ltb, leb, ◌==◌, if◌then◌else◌, dec32,
}
use bradyp_os.Base.Array.{Array, store, swap}
pub mod Order
pub mod Contents
pub mod Indices
pub mod Sinking
mod Examples

-- `items` is the C field `data`.
pub record Heap : Type 0 where
  pub size : ℕ
  pub items : Array

-- `~(unsigned)0`
abbrev pub fail : ℕ
fail = 2 ^ 32 - 1

unfoldable pub init : Heap → Heap
init h = record h { size = 0 }

module _ (before : ℕ → ℕ → Bool) where
  -- The parent's index is below the child's, so `fuel` rounds are enough where `i` is at most `fuel`.
  swim_loop : ℕ → Array → ℕ → Array × ℕ
  swim_loop zero a i = (a, i)
  swim_loop (suc fuel) a i =
      let parent = (i - 1) / 2 in
      let rest = swim_loop fuel (swap a i parent) parent in
      if ltb 0 i && before (a i) (a parent) then rest else (a, i)

  -- Moves the entry `i` towards the root; returns the array and the entry's final index.
  unfoldable pub swim : Array → ℕ → Array × ℕ
  unfolding swim_loop swap
  swim a i = if i == 0 then (a, 0) else swim_loop i a i

  -- A child's index is above its parent's, so `n` rounds are enough in a heap of `n` entries.
  sink_loop : ℕ → ℕ → Array → ℕ → Array × ℕ
  sink_loop zero n a i = (a, i)
  sink_loop (suc fuel) n a i =
      let left = i * 2 + 1 in
      let right = i * 2 + 2 in
      let go_right = sink_loop fuel n (swap a right i) right in
      let go_left = sink_loop fuel n (swap a left i) left in
      let step =
        if ltb right n && before (a right) (a i)
        then go_right
        else if before (a left) (a i)
        then go_left
        else (a, i) in
      if leb i ((n - 2) / 2) then step else (a, i)

  -- Moves the entry `i` of a heap of `n` entries towards the leaves.
  unfoldable pub sink : ℕ → Array → ℕ → Array × ℕ
  unfolding sink_loop swap
  sink n a i = if ltb n 2 then (a, i) else sink_loop n n a i

  unfoldable pub insert : (cap : ℕ) → Heap → ℕ → Heap × ℕ
  unfolding swim store
  insert cap h v =
      let (a, i) = swim (store h.items h.size v) h.size in
      if h.size == cap then (h, fail) else (record { size = h.size + 1; items = a }, i)

  -- The last entry takes the place of entry `i`, and sinks.
  unfoldable pub delete : Heap → ℕ → Heap
  unfolding sink store
  delete h i =
      let n = dec32 h.size in
      record { size = n; items = (sink n (store h.items i (h.items n)) i).0 }

  unfoldable pub pop : Heap → Heap
  unfolding sink store
  pop h =
      let n = dec32 h.size in
      record { size = n; items = (sink n (store h.items 0 (h.items n)) 0).0 }
