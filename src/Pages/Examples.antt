-- ===== src/Pages/Examples.antt =====
-- The allocator on a small memory: two pages from page 30 on, and eight pages from page 10 on.
use bradyp_os.Base.{◌≡◌, refl, inr, none, some, List, [], ◌∷◌, ◌>>=◌, arith}
use bradyp_os.Pages.{
  Pages, init_linked_list_alloc_state, linked_list_alloc_pages, linked_list_free_pages,
}
use bradyp_os.Pages.Ranges.{Range, first_fit}
use bradyp_os.Pages.Refines.{
  Holds, Allocates, linked_list_alloc_pages-first_fit, linked_list_free_pages-Holds,
  init_linked_list_alloc_state-Holds,
}

abbrev blank : Pages
blank = record {
  start = 0;
  page_count = 0;
  first_free_item = none;
  nodes = λ _. record { num_pages = 0; next = none; prev = none };
}

abbrev fresh : Pages
fresh = init_linked_list_alloc_state blank 10 8

abbrev two_ranges : Pages
two_ranges = linked_list_free_pages fresh 30 2

abbrev ranges : List Range
ranges = (30, 2) ∷ (10, 8) ∷ []

-- Three pages come from the second range, and a later request for five fits exactly.
alloc_three : (linked_list_alloc_pages 3 two_ranges 3 >>= λ r. r.0) ≡ some 10
unfolding linked_list_alloc_pages linked_list_free_pages init_linked_list_alloc_state
alloc_three = refl

alloc_three_five :
    (linked_list_alloc_pages 3 two_ranges 3 >>= λ r. linked_list_alloc_pages 3 r.1 5 >>= λ q. q.0)
    ≡ some 13
unfolding linked_list_alloc_pages linked_list_free_pages init_linked_list_alloc_state
alloc_three_five = refl

alloc_none : (linked_list_alloc_pages 3 two_ranges 9 >>= λ r. r.0) ≡ none
unfolding linked_list_alloc_pages linked_list_free_pages init_linked_list_alloc_state
alloc_none = refl

fresh-Holds : Holds fresh ((10, 8) ∷ [])
fresh-Holds = init_linked_list_alloc_state-Holds blank 10 8 (omega arith)

two_ranges-Holds : Holds two_ranges ranges
two_ranges-Holds =
    linked_list_free_pages-Holds fresh 30 2 ((10, 8) ∷ []) fresh-Holds (omega arith)
      (inr (omega arith), tt)

linked_list_alloc_pages-first_fit_example :
    Allocates two_ranges 3 ranges (linked_list_alloc_pages 3 two_ranges 3) (first_fit 3 ranges)
linked_list_alloc_pages-first_fit_example =
    linked_list_alloc_pages-first_fit 3 two_ranges 3 ranges two_ranges-Holds (omega arith)
      (omega arith)
