-- ===== src/Pages/Chain.antt =====
-- The free list of lib/buddy/linked_list_alloc.c as a chain of nodes, and the changes that spare it.
use bradyp_os.Base.{
  ℕ, ◌+◌, ◌≤◌, ◌<◌, ◌≡◌, ◌≢◌, ◌⊎◌, refl, ap, Option, none, some, List, [], ◌∷◌, arith,
}
use mathlib.Core.Path.{fun_ext}
use bradyp_os.Pages.{Node, Pages, Slot, head, after, put_node, read, write, relink_next}
use bradyp_os.Pages.Ranges.{Range, Outside, Clear, AreApart}

-- From `p` the nodes lead through the ranges, in order; no node has a predecessor, as the allocator
-- leaves them.
abbrev pub IsChain : Pages → Option ℕ → List Range → Type 0
IsChain s p [] = p ≡ none
IsChain s p ((b, m) ∷ xs) =
    (p ≡ some b)
    × ((s.nodes b).num_pages ≡ m)
    × ((s.nodes b).prev ≡ none)
    × IsChain s (s.nodes b).next xs

-- The nodes at the ranges of the list are the same.
abbrev pub SameAt : Pages → Pages → List Range → Type 0
SameAt s s' [] = Unit
SameAt s s' ((b, m) ∷ xs) = (s'.nodes b ≡ s.nodes b) × SameAt s s' xs

pub IsChain-same :
    (s s' : Pages) (p : Option ℕ) (xs : List Range)
    → SameAt s s' xs
    → IsChain s p xs
    → IsChain s' p xs
IsChain-same s s' p [] e c = c
IsChain-same s s' p ((b, m) ∷ xs) e c =
    rw e.0 (c.0, c.1, c.2, IsChain-same s s' (s.nodes b).next xs e.1 c.3)

-- The slot is not a field of a node of the list.
abbrev pub SlotOutside : Slot → List Range → Type 0
SlotOutside head xs = Unit
SlotOutside (after p) xs = Outside p xs

-- A change that touches only the pages of a range clear of the list, and a slot outside of it.
pub SameAt-spared :
    (s s' : Pages) (slot : Slot) (c k : ℕ) (xs : List Range)
    → AreApart xs
    → Clear c k xs
    → SlotOutside slot xs
    → ((x : ℕ) → (x < c) ⊎ (c + k ≤ x) → slot ≢ after x → s'.nodes x ≡ s.nodes x)
    → SameAt s s' xs
SameAt-spared s s' slot c k [] a cl o e = tt
SameAt-spared s s' slot c k ((b, m) ∷ xs) a cl o e = (
  e b (ground (arith, a.0, cl.0)) (slot-ne slot o),
  SameAt-spared s s' slot c k xs a.2 cl.1 (slot_tail slot o) e,
)
  where
    slot-ne : (slot : Slot) → SlotOutside slot ((b, m) ∷ xs) → slot ≢ after b
    slot-ne head o = λ h. cc
    slot-ne (after p) o = λ h. ground (arith, o.0, a.0)

    slot_tail : (slot : Slot) → SlotOutside slot ((b, m) ∷ xs) → SlotOutside slot xs
    slot_tail head o = tt
    slot_tail (after p) o = o.1

module _ (s : Pages) where
  pub read-write : (slot : Slot) (q : Option ℕ) → read (write s slot q) slot ≡ q
  unfolding read write put_node
  read-write head q = refl
  read-write (after p) q = ground arith

  pub read-write_ne :
      (slot other : Slot) (q : Option ℕ) → other ≢ slot → read (write s slot q) other ≡ read s other
  unfolding read write put_node
  read-write_ne head head q h = absurd (h refl)
  read-write_ne head (after x) q h = refl
  read-write_ne (after p) head q h = refl
  read-write_ne (after p) (after x) q h = ground (arith, h)

  pub nodes-write :
      (slot : Slot) (q : Option ℕ) (x : ℕ) → slot ≢ after x → (write s slot q).nodes x ≡ s.nodes x
  unfolding write put_node
  nodes-write head q x h = refl
  nodes-write (after p) q x h = ground (arith, h)

  -- A slot holds no number of pages and no predecessor.
  pub write_kept :
      (slot : Slot) (q : Option ℕ) (x : ℕ)
      → (((write s slot q).nodes x).num_pages ≡ (s.nodes x).num_pages)
        × (((write s slot q).nodes x).prev ≡ (s.nodes x).prev)
  unfolding write put_node
  write_kept head q x = (refl, refl)
  write_kept (after p) q x = ground arith

  -- There is no predecessor to take away.
  pub relink_next-none :
      (q : Option ℕ) (xs : List Range) → IsChain s q xs → relink_next s q none ≡ s
  unfolding relink_next put_node
  relink_next-none none xs c = refl
  relink_next-none (some p) [] c = absurd (cc (c))
  relink_next-none (some p) ((b, m) ∷ xs) c =
      ap (λ (f : ℕ → Node). record s { nodes = f }) (fun_ext (λ i. ground (arith, c.0, c.2)))
