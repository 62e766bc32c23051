-- ===== src/Heap/Examples.antt =====
-- The heap on small inputs, ordered by `<`.
use bradyp_os.Base.{ℕ, zero, suc, ◌≡◌, refl, ltb, arith}
use bradyp_os.Base.Array.{swap}
use bradyp_os.Heap.{Heap, insert, pop}
use bradyp_os.Heap.Order.{IsStrictOrder, IsHeap, insert-IsHeap}
use bradyp_os.Heap.Sinking.{pop-IsHeap, pop-not-IsHeap}

ltb-IsStrictOrder : IsStrictOrder ltb
ltb-IsStrictOrder = record { asym = λ a b h. ground arith; not_trans = λ a b c h k. ground arith }

abbrev entries : ℕ → ℕ
entries zero = 1
entries (suc zero) = 2
entries (suc (suc zero)) = 3
entries (suc (suc (suc n))) = 5

abbrev four : Heap
four = record { size = 4; items = entries }

-- The second child is taken although the first comes before it.
pop-four : (pop ltb four).items 0 ≡ 3
unfolding pop swap
pop-four = refl

insert-four : (insert ltb 16 four 0).0.items 0 ≡ 0
unfolding insert swap
insert-four = refl

insert-four_index : (insert ltb 16 four 0).1 ≡ 0
unfolding insert swap
insert-four_index = refl

abbrev level : ℕ → ℕ
level n = 7

abbrev even_heap : Heap
even_heap = record { size = 4; items = level }

level-IsHeap : IsHeap ltb 4 level
level-IsHeap c p q = refl

insert-IsHeap_example :
    IsHeap ltb (insert ltb 16 even_heap 3).0.size (insert ltb 16 even_heap 3).0.items
insert-IsHeap_example = insert-IsHeap ltb-IsStrictOrder 16 even_heap 3 (omega arith) level-IsHeap

pop-IsHeap_example : IsHeap ltb (pop ltb even_heap).size (pop ltb even_heap).items
pop-IsHeap_example =
    pop-IsHeap ltb-IsStrictOrder even_heap (omega arith) (omega arith) level-IsHeap (λ p q r. refl)

pop-not-IsHeap_example : ((pop ltb four).items 0 ≡ 3) × ¬ IsHeap ltb 3 (pop ltb four).items
pop-not-IsHeap_example = pop-not-IsHeap ltb entries refl refl
