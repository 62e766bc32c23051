-- ===== src/Spaces/Creation.antt =====
-- `create_as` of kern/memory.c takes a free address space, and no other.
use bradyp_os.Base.{
  ℕ, zero, suc, ◌+◌, ◌≤◌, ◌<◌, ◌≡◌, ◌≢◌, refl, inl, inr, true, false, Option, some, ◌==◌,
  if◌then◌else◌, arith, Bool-cases, ne_of_test, test_of_ne,
}
use bradyp_os.Kernel.{Kernel, set_bit}
use bradyp_os.Spaces.{alloc_from, alloc_as, create_as, max_address_spaces, nilpage}

-- Space `i` was the first free one, and belongs to `owner` now; the others are as before.
pub record IsNewSpace (k : Kernel) (owner i : ℕ) (k' : Kernel) : Type 0 where
  pub below : i < max_address_spaces
  pub free : k.as_allocated i ≡ false
  pub first : (m : ℕ) → m < i → k.as_allocated m ≡ true
  pub bits : (m : ℕ) → k'.as_allocated m ≡ set_bit k.as_allocated i true m
  pub owned : (k'.as_pool i).first_thread ≡ some owner
  pub others : (m : ℕ) → m ≢ i → k'.as_pool m ≡ k.as_pool m

record IsTaken (k : Kernel) (j n : ℕ) (r : ℕ × Kernel) : Type 0 where
  bound : r.0 ≤ j + n
  from : j ≤ r.0
  earlier : (m : ℕ) → j ≤ m → m < r.0 → k.as_allocated m ≡ true
  free : r.0 ≢ j + n → k.as_allocated r.0 ≡ false
  bits : r.0 ≢ j + n → (m : ℕ) → r.1.as_allocated m ≡ set_bit k.as_allocated r.0 true m
  pool : r.1.as_pool ≡ k.as_pool

alloc_from-IsTaken : (n j : ℕ) (k : Kernel) → IsTaken k j n (alloc_from n j k)
unfolding alloc_from
alloc_from-IsTaken zero j k = record {
  bound = omega arith;
  from = omega arith;
  earlier = λ m p q. absurd (omega arith);
  free = λ ne. absurd (omega arith);
  bits = λ ne m. absurd (omega arith);
  pool = refl;
}
alloc_from-IsTaken (suc n) j k = elim (Bool-cases (k.as_allocated j)) [
  | inl used ↦
      let t = alloc_from-IsTaken n (j + 1) k in
      rw used (record {
        bound = omega (arith, t.bound);
        from = omega (arith, t.from);
        earlier = λ m p q. ground (arith, t.earlier m);
        free = λ ne. t.free (omega arith);
        bits = λ ne m. t.bits (omega arith) m;
        pool = t.pool;
      })
  | inr open_space ↦ rw open_space (record {
    bound = omega arith;
    from = omega arith;
    earlier = λ m p q. absurd (omega arith);
    free = λ ne. open_space;
    bits = λ ne m. refl;
    pool = refl;
  })
]

with_space : Kernel → (i owner : ℕ) → Kernel
with_space k i owner = record k {
  as_pool = λ j.
      if j == i
      then record { ref_count = 1; utcb_page = nilpage; first_thread = some owner }
      else k.as_pool j;
}

with_space-IsNewSpace :
    (k : Kernel) (owner : ℕ) (r : ℕ × Kernel)
    → IsTaken k 0 max_address_spaces r
    → r.0 ≢ max_address_spaces
    → IsNewSpace k owner r.0 (with_space r.1 r.0 owner)
unfolding with_space
with_space-IsNewSpace k owner r t ne = record {
  below = omega (arith, t.bound);
  free = t.free ne;
  first = λ m p. t.earlier m (omega arith) p;
  bits = λ m. t.bits ne m;
  owned = ground arith;
  others = λ m p. rw (test_of_ne m r.0 p, t.pool) refl;
}

some_pair_inv :
    {i j : ℕ} {k k' : Kernel}
    → ◌≡◌ {A = Option (ℕ × Kernel)} (some (i, k)) (some (j, k'))
    → (i ≡ j) × (k ≡ k')
some_pair_inv h = (cc, cc)

-- A `create_as` that returns has taken the first free one of the 16 address spaces, gives it to the
-- owner, and leaves the others as they were.
pub create_as-IsNewSpace :
    (k : Kernel) (owner : ℕ) {i : ℕ} {k' : Kernel}
    → create_as k owner ≡ some (i, k')
    → IsNewSpace k owner i k'
unfolding create_as alloc_as with_space
create_as-IsNewSpace k owner {i} {k'} h =
    let t = alloc_from-IsTaken max_address_spaces 0 k in
    elim (Bool-cases ((alloc_as k).0 == max_address_spaces)) [
      | inl full ↦ absurd (let g = (rw full at h) in cc)
      | inr room ↦
          let (e, e') =
            some_pair_inv {i = (alloc_as k).0} {j = i}
              {k = with_space (alloc_as k).1 (alloc_as k).0 owner} {k' = k'} (rw room at h) in
          rw (← e, ← e')
            (with_space-IsNewSpace k owner (alloc_as k) t (ne_of_test _ max_address_spaces room))
    ]
