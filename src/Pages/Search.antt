-- ===== src/Pages/Search.antt =====
-- `linked_list_alloc_pages` of lib/buddy/linked_list_alloc.c from any slot of the free list on.
use bradyp_os.Base.{
  ℕ, ◌+◌, ◌-◌, ◌≤◌, ◌<◌, ◌≡◌, ◌≢◌, ◌⊎◌, refl, ap, ◌∙◌, false, Option, none, some, List, ◌∷◌, ltb,
  arith,
}
use bradyp_os.Pages.{
  Node, Pages, Slot, head, after, put_node, read, write, relink_next, relink_prev, split_node_at,
  delete_node_from_list, take_pages,
}
use bradyp_os.Pages.Ranges.{Range, Outside, AreApart, Fit, no_fit, fits}
use bradyp_os.Pages.Chain.{
  IsChain, IsChain-same, SlotOutside, SameAt-spared, read-write, read-write_ne, nodes-write,
  write_kept, relink_next-none,
}

-- Of what is outside of the ranges only the slot itself may be new.
pub record IsSpared (s s' : Pages) (slot : Slot) (xs : List Range) : Type 0 where
  pub nodes_kept :
      (x : ℕ)
      → Outside x xs
      → ((s'.nodes x).num_pages ≡ (s.nodes x).num_pages) × ((s'.nodes x).prev ≡ (s.nodes x).prev)
  pub slots_kept :
      (other : Slot) → SlotOutside other xs → other ≢ slot → read s' other ≡ read s other

-- The answer that the list of ranges asks for.
abbrev pub Answers : Pages → Slot → List Range → Fit → Option (Option ℕ × Pages) → Type 0
Answers s slot xs no_fit r = r ≡ some (none, s)
Answers s slot xs (fits b ys) r =
    (s' : Pages) × (r ≡ some (some b, s')) × IsChain s' (read s' slot) ys × IsSpared s s' slot xs

ltb_irrefl : (n : ℕ) → ltb n n ≡ false
ltb_irrefl n = ground arith

delete_lem :
    (s s2 : Pages) (slot : Slot) (c : ℕ)
    → read s slot ≡ some c
    → (s.nodes c).prev ≡ none
    → relink_next s (s.nodes c).next none ≡ s2
    → read s2 slot ≡ some c
    → delete_node_from_list s slot ≡ some (write s2 slot (s2.nodes c).next)
unfolding delete_node_from_list relink_prev
delete_lem s s2 slot c here no_prev linked again = ground arith

pub slot_tail :
    (slot : Slot) (r : Range) (xs : List Range) → SlotOutside slot (r ∷ xs) → SlotOutside slot xs
slot_tail head (b, m) xs o = tt
slot_tail (after p) (b, m) xs o = o.1

-- The node of a range of exactly the wanted length leaves the list.
pub take_whole :
    (s : Pages) (slot : Slot) (c n k : ℕ) (xs : List Range)
    → k ≡ n
    → IsChain s (read s slot) ((c, k) ∷ xs)
    → SlotOutside slot ((c, k) ∷ xs)
    → AreApart ((c, k) ∷ xs)
    → Answers s slot ((c, k) ∷ xs) (fits c xs) (take_pages s slot n)
unfolding take_pages
take_whole s slot c n k xs e ch o a =
    let next = (s.nodes c).next in
    let s' = write s slot next in
    let deleted : delete_node_from_list s slot ≡ some s' =
      delete_lem s s slot c ch.0 ch.2 (relink_next-none s next xs ch.3) ch.0 in
    (
      s',
      ground (arith, ch.0, ch.1, e, ltb_irrefl n, deleted),
      rw (read-write s slot next) (
          IsChain-same s s' next xs
            (SameAt-spared s s' slot c k xs a.2 a.1 (slot_tail slot (c, k) xs o)
              (λ x _ ne. nodes-write s slot next x ne))
            ch.3),
      record {
        nodes_kept = λ x _. write_kept s slot next x;
        slots_kept = λ other _ ne. read-write_ne s slot other next ne;
      },
    )

-- The list from the new node on, when a range of `k` pages is split behind `n` of them.
split_off : Pages → (c n : ℕ) → Pages
unfolding split_node_at relink_next put_node
split_off s c n = relink_next (split_node_at s c n) (some (c + n)) none

module _ (s : Pages) (c n k : ℕ) (more : n < k) where
  -- A page that is not within the range keeps its node.
  nodes-split_off : (x : ℕ) → (x < c) ⊎ (c + k ≤ x) → (split_off s c n).nodes x ≡ s.nodes x
  unfolding split_off
  nodes-split_off x out = ground (arith, out)

  read-split_off :
      (slot : Slot) (xs : List Range)
      → SlotOutside slot ((c, k) ∷ xs)
      → (read (split_node_at s c n) slot ≡ read s slot)
        × (read (split_off s c n) slot ≡ read s slot)
  unfolding split_off read
  read-split_off head xs o = (refl, refl)
  read-split_off (after p) xs o = ground (arith, o.0)

  split_off_node :
      0 < n
      → (((split_off s c n).nodes (c + n)).num_pages ≡ (s.nodes c).num_pages - n)
        × (((split_off s c n).nodes (c + n)).next ≡ (s.nodes c).next)
        × (((split_off s c n).nodes (c + n)).prev ≡ none)
        × (((split_off s c n).nodes c).next ≡ some (c + n))
  unfolding split_off
  split_off_node pos = ground arith

  split_front :
      0 < n
      → (((split_node_at s c n).nodes c).next ≡ some (c + n))
        × (((split_node_at s c n).nodes c).prev ≡ (s.nodes c).prev)
  unfolding split_node_at
  split_front pos = ground arith

  slot-ne_new :
      (slot : Slot) (xs : List Range) → SlotOutside slot ((c, k) ∷ xs) → slot ≢ after (c + n)
  slot-ne_new head xs o = λ h. cc
  slot-ne_new (after p) xs o = λ h. ground (arith, o.0)

  split_off_next :
      0 < n
      → relink_next (split_node_at s c n) ((split_node_at s c n).nodes c).next none
        ≡ split_off s c n
  unfolding split_off
  split_off_next pos = ap (λ q. relink_next (split_node_at s c n) q none) (split_front pos).0

-- A longer range leaves its rest in the list.
pub take_part :
    (s : Pages) (slot : Slot) (c n k : ℕ) (xs : List Range)
    → 0 < n
    → n < k
    → IsChain s (read s slot) ((c, k) ∷ xs)
    → SlotOutside slot ((c, k) ∷ xs)
    → AreApart ((c, k) ∷ xs)
    → Answers s slot ((c, k) ∷ xs) (fits c ((c + n, k - n) ∷ xs)) (take_pages s slot n)
unfolding take_pages
take_part s slot c n k xs pos more ch o a =
    let s2 = split_off s c n in
    let s' = write s2 slot (some (c + n)) in
    let kept = read-split_off s c n k more slot xs o in
    let node = split_off_node s c n k more pos in
    let spared = nodes-split_off s c n k more in
    let front = split_front s c n k more pos in
    let deleted =
      delete_lem (split_node_at s c n) s2 slot c (kept.0 ∙ ch.0) (front.1 ∙ ch.2)
        (split_off_next s c n k more pos) (kept.1 ∙ ch.0) in
    let apart_new =
      nodes-write s2 slot (some (c + n)) (c + n) (slot-ne_new s c n k more slot xs o) in
    (
      s',
      ground (arith, ch.0, ch.1, deleted, node.3, kept.0, more),
      (
        read-write s2 slot (some (c + n)),
        ap (λ (x : Node). x.num_pages) apart_new ∙ node.0 ∙ ap (λ m. m - n) ch.1,
        ap (λ (x : Node). x.prev) apart_new ∙ node.2,
        rw (apart_new, node.1)
            (IsChain-same s s' (s.nodes c).next xs
              (SameAt-spared s s' slot c k xs a.2 a.1 (slot_tail slot (c, k) xs o)
                (λ x out e. nodes-write s2 slot (some (c + n)) x e ∙ spared x out))
              ch.3),
      ),
      record {
        nodes_kept = λ x out.
            let w = write_kept s2 slot (some (c + n)) x in
            let e = spared x out.0 in
            (w.0 ∙ ap (λ (x : Node). x.num_pages) e, w.1 ∙ ap (λ (x : Node). x.prev) e);
        slots_kept = λ other out e.
            read-write_ne s2 slot other (some (c + n)) e
            ∙ (read-split_off s c n k more other xs out).1;
      },
    )
