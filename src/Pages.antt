-- ===== src/Pages.antt =====
-- lib/buddy/linked_list_alloc.c: the allocator of pages. A pointer to a page is the page's number, and
-- the node of a free range stands at its first page. A `struct linked_list_node **` is a `Slot`.
-- `none` means that a NULL pointer is followed, or that the search does not end within the fuel.
pub mod Ranges
pub mod Chain
pub mod Search
pub mod FirstFit
pub mod Walk
pub mod Refines
mod Examples
use bradyp_os.Base.{
  ℕ, zero, suc, ◌+◌, ◌-◌, true, false, Option, none, some, ltb, ◌==◌, if◌then◌else◌, ◌>>=◌,
}

-- `struct linked_list_node`
pub record Node : Type 0 where
  pub num_pages : ℕ
  pub next : Option ℕ
  pub prev : Option ℕ

-- `struct linked_list_alloc_state`, and the nodes by the page where they stand.
pub record Pages : Type 0 where
  pub start : ℕ
  pub page_count : ℕ
  pub first_free_item : Option ℕ
  pub nodes : ℕ → Node

-- `&state->first_free_item` or `&node->next`
pub data Slot : Type 0 where
  head : Slot
  after : ℕ → Slot

unfoldable pub put_node : Pages → ℕ → Node → Pages
put_node s p node = record s { nodes = λ i. if i == p then node else s.nodes i }

unfoldable pub read : Pages → Slot → Option ℕ
read s head = s.first_free_item
read s (after p) = (s.nodes p).next

unfoldable pub write : Pages → Slot → Option ℕ → Pages
unfolding put_node
write s head q = record s { first_free_item = q }
write s (after p) q = put_node s p (record (s.nodes p) { next = q })

unfoldable pub init_linked_list_alloc_state : Pages → (base num_pages : ℕ) → Pages
unfolding put_node
init_linked_list_alloc_state s base num_pages =
    put_node (record s { start = base; page_count = num_pages; first_free_item = some base }) base
      (record { num_pages = num_pages; next = none; prev = none })

-- The caller has made sure that the node has more than `split_at` pages.
unfoldable pub split_node_at : Pages → (node split_at : ℕ) → Pages
unfolding put_node
split_node_at s node split_at =
    let new_node = node + split_at in
    let old = s.nodes node in
    let s1 =
      put_node s new_node
        (record { num_pages = old.num_pages - split_at; next = old.next; prev = some node }) in
    put_node s1 node (record (s1.nodes node) { next = some new_node })

-- `if (prev) prev->next = next;` and `if (next) next->prev = prev;`
unfoldable pub relink_prev : Pages → (prev next : Option ℕ) → Pages
unfolding put_node
relink_prev s none next = s
relink_prev s (some p) next = put_node s p (record (s.nodes p) { next = next })

unfoldable pub relink_next : Pages → (next prev : Option ℕ) → Pages
unfolding put_node
relink_next s none prev = s
relink_next s (some p) prev = put_node s p (record (s.nodes p) { prev = prev })

-- The slot is read again before it is written.
unfoldable pub delete_node_from_list : Pages → Slot → Option Pages
unfolding read write relink_prev relink_next
delete_node_from_list s slot = read s slot >>= λ node.
    let prev = (s.nodes node).prev in
    let next = (s.nodes node).next in
    let s1 = relink_next (relink_prev s prev next) next prev in
    read s1 slot >>= λ again. some (write s1 slot (s1.nodes again).next)

-- The loop of `linked_list_alloc_pages`.
unfoldable pub find_fit : (fuel : ℕ) → Pages → Slot → (num_pages : ℕ) → Option Slot
unfolding read
find_fit zero s slot num_pages = none
find_fit (suc fuel) s slot num_pages = elim (read s slot) [
  | none ↦ some slot
  | some p ↦ elim (ltb (s.nodes p).num_pages num_pages) [
    | true ↦ find_fit fuel s (after p) num_pages
    | false ↦ some slot
  ]
]

-- The part behind the loop.
unfoldable pub take_pages : Pages → Slot → (num_pages : ℕ) → Option (Option ℕ × Pages)
unfolding read split_node_at delete_node_from_list
take_pages s slot num_pages = elim (read s slot) [
  | none ↦ some (none, s)
  | some p ↦
      let s1 = if ltb num_pages (s.nodes p).num_pages then split_node_at s p num_pages else s in
      delete_node_from_list s1 slot >>= λ s2. some (read s1 slot, s2)
]

-- The result is the first page, or NULL.
unfoldable pub linked_list_alloc_pages :
    (fuel : ℕ) → Pages → (num_pages : ℕ) → Option (Option ℕ × Pages)
unfolding find_fit take_pages
linked_list_alloc_pages fuel s num_pages =
    find_fit fuel s head num_pages >>= λ slot. take_pages s slot num_pages

unfoldable pub linked_list_free_pages : Pages → (base num_pages : ℕ) → Pages
unfolding put_node
linked_list_free_pages s base num_pages =
    let node : Node = record { num_pages = num_pages; next = s.first_free_item; prev = none } in
    record (put_node s base node) { first_free_item = some base }
