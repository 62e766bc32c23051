-- ===== src/Pages/Walk.antt =====
-- `linked_list_alloc_pages` of lib/buddy/linked_list_alloc.c from a slot of the free list to its end.
use bradyp_os.Base.{
  ℕ, zero, suc, ◌≤◌, ◌<◌, ◌≡◌, ◌≢◌, inl, inr, ◌∙◌, Option, none, some, List, [], ◌∷◌, ◌>>=◌,
  three_way, arith,
}
use bradyp_os.Base.Lists.{length}
use bradyp_os.Pages.{Pages, Slot, head, after, read, find_fit, take_pages}
use bradyp_os.Pages.Ranges.{Range, AreApart, Fit, no_fit, fits, behind, first_fit, Clear-Outside}
use bradyp_os.Pages.FirstFit.{first_fit_short, first_fit_exact, first_fit_longer}
use bradyp_os.Pages.Chain.{IsChain, SlotOutside}
use bradyp_os.Pages.Search.{Answers, take_whole, take_part, slot_tail}

-- What is true of the tail behind a range is true of the list with the range.
Answers-behind :
    (s : Pages) (slot : Slot) (c k : ℕ) (xs : List Range) (f : Fit) (r : Option (Option ℕ × Pages))
    → IsChain s (read s slot) ((c, k) ∷ xs)
    → SlotOutside slot ((c, k) ∷ xs)
    → AreApart ((c, k) ∷ xs)
    → Answers s (after c) xs f r
    → Answers s slot ((c, k) ∷ xs) (behind (c, k) f) r
unfolding read
Answers-behind s slot c k xs no_fit r ch o a h = h
Answers-behind s slot c k xs (fits b ys) r ch o a (s', run, chain, spared) =
    let out = Clear-Outside c k c xs a.1 (omega arith) (omega (arith, a.0)) in
    let node = spared.nodes_kept c out in
    (
      s',
      run,
      (
        spared.slots_kept slot (slot_rest slot o) (slot-ne slot o) ∙ ch.0,
        node.0 ∙ ch.1,
        node.1 ∙ ch.2,
        chain,
      ),
      record {
        nodes_kept = λ x e. spared.nodes_kept x e.1;
        slots_kept = λ other e ne. spared.slots_kept other (slot_rest other e) (slot-ne other e);
      },
    )
  where
    slot_rest : (x : Slot) → SlotOutside x ((c, k) ∷ xs) → SlotOutside x xs
    slot_rest x = slot_tail x (c, k) xs

    slot-ne : (x : Slot) → SlotOutside x ((c, k) ∷ xs) → x ≢ after c
    slot-ne head e = λ h. cc
    slot-ne (after p) e = λ h. ground (arith, e.0, a.0)

-- The loop at a node, and what is left of the node's range.
module _ (s : Pages) (slot : Slot) (n c k : ℕ) (xs : List Range)
    (ch : IsChain s (read s slot) ((c, k) ∷ xs)) where
  walk : (fuel : ℕ) → k < n → find_fit (suc fuel) s slot n ≡ find_fit fuel s (after c) n
  unfolding find_fit
  walk fuel h = ground (arith, ch.0, ch.1)

  stop : (fuel : ℕ) → n ≤ k → find_fit (suc fuel) s slot n ≡ some slot
  unfolding find_fit
  stop fuel h = ground (arith, ch.0, ch.1)

alloc_end :
    (s : Pages) (slot : Slot) (n fuel : ℕ)
    → read s slot ≡ none
    → Answers s slot [] (first_fit n []) (find_fit (suc fuel) s slot n >>= λ p. take_pages s p n)
unfolding find_fit first_fit take_pages
alloc_end s slot n fuel h = ground (arith, h)

-- The walk from any slot gives the answer of first fit on the ranges from there on.
pub alloc_walk :
    (fuel : ℕ) (s : Pages) (slot : Slot) (n : ℕ) (xs : List Range)
    → 0 < n
    → length xs < fuel
    → IsChain s (read s slot) xs
    → SlotOutside slot xs
    → AreApart xs
    → Answers s slot xs (first_fit n xs) (find_fit fuel s slot n >>= λ p. take_pages s p n)
unfolding read
alloc_walk zero s slot n xs pos f ch o a = absurd (omega arith)
alloc_walk (suc fuel) s slot n [] pos f ch o a = alloc_end s slot n fuel ch
alloc_walk (suc fuel) s slot n ((c, k) ∷ xs) pos f ch o a = elim (three_way k n) [
  | inl short ↦
      rw (walk s slot n c k xs ch fuel short, first_fit_short n c k xs short)
        (Answers-behind s slot c k xs (first_fit n xs) _ ch o a (
          alloc_walk fuel s (after c) n xs pos (omega (arith, f)) ch.3
            (Clear-Outside c k c xs a.1 (omega arith) (omega (arith, a.0))) a.2))
  | inr (inl exact) ↦
      rw (stop s slot n c k xs ch fuel (omega arith), first_fit_exact n c k xs exact)
        (take_whole s slot c n k xs exact ch o a)
  | inr (inr more) ↦
      rw (stop s slot n c k xs ch fuel (omega arith), first_fit_longer n c k xs more)
        (take_part s slot c n k xs pos more ch o a)
]
