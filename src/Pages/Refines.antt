-- ===== src/Pages/Refines.antt =====
-- The allocator of lib/buddy/linked_list_alloc.c as a list of free ranges.
use bradyp_os.Base.{
  ℕ, ◌+◌, ◌≤◌, ◌<◌, ◌≡◌, ◌⊎◌, inl, inr, refl, Option, none, some, List, [], ◌∷◌, arith,
}
use bradyp_os.Base.Lists.{length}
use bradyp_os.Pages.{
  Pages, head, read, linked_list_alloc_pages, linked_list_free_pages, init_linked_list_alloc_state,
}
use bradyp_os.Pages.Ranges.{Range, total, Clear, AreApart, Fit, no_fit, fits, first_fit}
use bradyp_os.Pages.Chain.{IsChain, IsChain-same, SameAt-spared}
use bradyp_os.Pages.FirstFit.{AreShort, Within, IsRight, first_fit-IsRight}
use bradyp_os.Pages.Search.{Answers}
use bradyp_os.Pages.Walk.{alloc_walk}

-- The free list of the allocator leads through these ranges, which do not overlap.
pub record Holds (s : Pages) (xs : List Range) : Type 0 where
  pub chain : IsChain s s.first_free_item xs
  pub apart : AreApart xs

-- What a caller gets of a list of free ranges, and what the allocator has then.
abbrev pub Allocates : Pages → ℕ → List Range → Option (Option ℕ × Pages) → Fit → Type 0
Allocates s n xs r no_fit = r ≡ some (none, s)
Allocates s n xs r (fits b ys) = (s' : Pages) × (r ≡ some (some b, s')) × Holds s' ys

-- Under fuel beyond the length of the free list, an allocation of some pages is first fit on the free
-- ranges: NULL and no change where it finds nothing, else the first page of the range, and a free list
-- of the ranges that it leaves, which do not overlap.
pub linked_list_alloc_pages-first_fit :
    (fuel : ℕ) (s : Pages) (n : ℕ) (xs : List Range)
    → Holds s xs
    → 0 < n
    → length xs < fuel
    → Allocates s n xs (linked_list_alloc_pages fuel s n) (first_fit n xs)
unfolding linked_list_alloc_pages read
linked_list_alloc_pages-first_fit fuel s n xs h pos f =
    answer (first_fit n xs) _ (first_fit-IsRight n xs h.apart)
      (alloc_walk fuel s head n xs pos f h.chain tt h.apart)
  where
    answer :
        (fit : Fit) (r : Option (Option ℕ × Pages))
        → IsRight n xs fit
        → Answers s head xs fit r
        → Allocates s n xs r fit
    answer no_fit r i a = a
    answer (fits b ys) r i a = (a.0, a.1, record { chain = a.2; apart = i.2 })

-- What the caller of the allocation may rely on: without a long enough range nothing happens; else the
-- pages come from one free range, none of them is free any more, and no other page is lost.
abbrev pub IsServed : Pages → ℕ → List Range → Option (Option ℕ × Pages) → Type 0
IsServed s n xs r =
    (AreShort n xs × (r ≡ some (none, s)))
    ⊎ ((b : ℕ) × (ys : List Range) × (s' : Pages) × (r ≡ some (some b, s'))
        × Holds s' ys
        × Within b n xs
        × Clear b n ys
        × (total ys + n ≡ total xs))

-- Under fuel beyond the length of the free list, an allocation of some pages from free ranges that do not
-- overlap either finds every range too short, gives NULL and changes nothing; or it gives the first of
-- `n` pages within one of the ranges, and the free ranges then do not overlap them or one another and
-- have `n` pages less in total.
pub linked_list_alloc_pages-IsServed :
    (fuel : ℕ) (s : Pages) (n : ℕ) (xs : List Range)
    → Holds s xs
    → 0 < n
    → length xs < fuel
    → IsServed s n xs (linked_list_alloc_pages fuel s n)
linked_list_alloc_pages-IsServed fuel s n xs h pos f =
    served (first_fit n xs) _ (first_fit-IsRight n xs h.apart)
      (linked_list_alloc_pages-first_fit fuel s n xs h pos f)
  where
    served :
        (fit : Fit) (r : Option (Option ℕ × Pages))
        → IsRight n xs fit
        → Allocates s n xs r fit
        → IsServed s n xs r
    served no_fit r i a = inl (i, a)
    served (fits b ys) r i a = inr (b, ys, a.0, a.1, a.2, i.0, i.1, i.3)

module _ (s : Pages) (b n : ℕ) where
  freed_node :
      (x : ℕ) → 0 < n → (x < b) ⊎ (b + n ≤ x) → (linked_list_free_pages s b n).nodes x ≡ s.nodes x
  unfolding linked_list_free_pages
  freed_node x pos out = ground (arith, out)

  freed_next : ((linked_list_free_pages s b n).nodes b).next ≡ s.first_free_item
  unfolding linked_list_free_pages
  freed_next = ground arith

-- Pages that overlap no free range become the first free range when they are freed.
pub linked_list_free_pages-Holds :
    (s : Pages) (b n : ℕ) (xs : List Range)
    → Holds s xs
    → 0 < n
    → Clear b n xs
    → Holds (linked_list_free_pages s b n) ((b, n) ∷ xs)
unfolding linked_list_free_pages
linked_list_free_pages-Holds s b n xs h pos cl = record {
  chain = (refl, ground arith, ground arith, rest);
  apart = (pos, cl, h.apart);
}
  where
    s' : Pages
    s' = linked_list_free_pages s b n

    rest : IsChain s' (s'.nodes b).next xs
    rest = rw (freed_next s b n) (
        IsChain-same s s' s.first_free_item xs
          (SameAt-spared s s' head b n xs h.apart cl tt (λ x out _. freed_node s b n x pos out))
          h.chain)

-- The fresh allocator has one free range, the whole memory.
pub init_linked_list_alloc_state-Holds :
    (s : Pages) (b n : ℕ) → 0 < n → Holds (init_linked_list_alloc_state s b n) ((b, n) ∷ [])
unfolding init_linked_list_alloc_state
init_linked_list_alloc_state-Holds s b n pos = record {
  chain = (refl, ground arith, ground arith, ground arith);
  apart = (pos, tt, tt);
}
