-- ===== src/Thread/Blocks.antt =====
-- The control blocks of kern/thread.c: `allocate_tcb` hands out the first free one, and
-- `create_thread` sets it up.
use mathlib.Core.Path.{subst}
use native.Mathlib.Decide.{ℕ_discrete}
use bradyp_os.Base.{
  ℕ, zero, suc, ◌+◌, ◌≤◌, ◌<◌, ◌≡◌, ◌≢◌, true, false, Option, inl, inr, none, some, ◌==◌, arith,
  Bool-cases, Option-cases, ne_of_test, refl, sym, ◌>>=◌,
}
use bradyp_os.Ids.{nilthread, version}
use bradyp_os.Kernel.{ThreadState, Tcb, Kernel, put_tcb, set_bit, thread_max_count}
use bradyp_os.Thread.{
  allocate_from, allocate_tcb, free_tcb, new_tcb, thread_list_insert, create_thread,
}

-- The block `i` with its bit set.
abbrev pub taken : Kernel → ℕ → Kernel
taken k i = record k { tcb_store_allocated = set_bit k.tcb_store_allocated i true }

-- Block `i` is the first free one from `j` on, below `n`.
pub record IsFirstFree (k : Kernel) (j n i : ℕ) : Type 0 where
  pub from : j ≤ i
  pub below : i < n
  pub free : k.tcb_store_allocated i ≡ false
  pub others : (m : ℕ) → j ≤ m → m < i → k.tcb_store_allocated m ≡ true

allocate_from-first :
    (n j : ℕ) (k : Kernel) {i : ℕ} {k' : Kernel}
    → allocate_from n j k ≡ some (i, k')
    → IsFirstFree k j (j + n) i × (k' ≡ taken k i)
unfolding allocate_from
allocate_from-first zero j k h = cc
allocate_from-first (suc n) j k {i} {k'} h = elim (Bool-cases (k.tcb_store_allocated j)) [
  | inl used ↦
      let (f, e) = allocate_from-first n (j + 1) k {i = i} {k' = k'} (ground arith) in
      (
        record {
          from = omega (arith, f.from);
          below = omega (arith, f.below);
          free = f.free;
          others = λ m p q. ground (arith, f.others m);
        },
        e,
      )
  | inr open_block ↦
      let here : j ≡ i = ground arith in
      (
        record {
          from = omega arith;
          below = omega arith;
          free = ground arith;
          others = λ m p q. absurd (omega arith);
        },
        ground arith,
      )
]

allocate_from-none :
    (n j : ℕ) (k : Kernel)
    → allocate_from n j k ≡ none
    → (m : ℕ) → j ≤ m
    → m < j + n
    → k.tcb_store_allocated m ≡ true
unfolding allocate_from
allocate_from-none zero j k h m p q = absurd (omega arith)
allocate_from-none (suc n) j k h m p q = elim (Bool-cases (k.tcb_store_allocated j)) [
  | inr open_block ↦ ground arith
  | inl used ↦ elim (ℕ_discrete m j) [
    | yes e ↦ rw e used
    | no ne ↦ allocate_from-none n (j + 1) k (ground arith) m (omega arith) (omega arith)
  ]
]

-- `allocate_tcb` takes the first free one of the 16 blocks, and marks nothing else.
pub allocate_tcb-first :
    (k : Kernel) {i : ℕ} {k' : Kernel}
    → allocate_tcb k ≡ some (i, k')
    → IsFirstFree k 0 thread_max_count i × (k' ≡ taken k i)
unfolding allocate_tcb
allocate_tcb-first k h = allocate_from-first 16 0 k h

-- `allocate_tcb` fails only where all 16 blocks are taken.
pub allocate_tcb-full :
    (k : Kernel)
    → allocate_tcb k ≡ none
    → (m : ℕ) → m < thread_max_count
    → k.tcb_store_allocated m ≡ true
unfolding allocate_tcb
allocate_tcb-full k h m p = allocate_from-none 16 0 k h m (omega arith) p

-- Freeing the block that `allocate_tcb` handed out leaves the same blocks allocated as before
-- both.
pub allocate-free :
    (k : Kernel) {i : ℕ} {k' : Kernel}
    → allocate_tcb k ≡ some (i, k')
    → (m : ℕ) → (free_tcb k' i).tcb_store_allocated m ≡ k.tcb_store_allocated m
unfolding free_tcb
allocate-free k {i} {k'} h m =
    let (f, e) = allocate_tcb-first k {i = i} {k' = k'} h in rw e (ground (arith, f.free))

thread_list_insert-frame :
    (k : Kernel) (tcb gid : ℕ) {k' : Kernel}
    → thread_list_insert k tcb gid ≡ some k'
    → (k'.thread_count ≡ k.thread_count + 1)
      × (k'.tcb_store ≡ k.tcb_store)
      × (k'.tcb_store_allocated ≡ k.tcb_store_allocated)
      × (k'.schedule ≡ k.schedule)
unfolding thread_list_insert
thread_list_insert-frame k tcb gid h = ground arith

-- A block as a new thread has it: inactive, of the identifier `gid`, with no address space, no UTCB, no
-- local identifier, no pager and no scheduler, and of priority 42. The saved registers, the partner and
-- the siblings are those that the block `old` held before.
pub record IsFresh (old : Tcb) (gid : ℕ) (new : Tcb) : Type 0 where
  pub named : new.global_id ≡ gid
  pub unnamed : new.local_id ≡ 0
  pub inactive : new.state ≡ ThreadState.inactive
  pub no_space : new.space ≡ none
  pub no_utcb : new.utcb ≡ 0
  pub no_pager : new.pager ≡ nilthread
  pub no_scheduler : new.scheduler ≡ nilthread
  pub middle : new.priority ≡ 42
  pub registers : new.ctx ≡ old.ctx
  pub partner : new.ipc_from ≡ old.ipc_from
  pub siblings : (new.next_sibling ≡ old.next_sibling) × (new.prev_sibling ≡ old.prev_sibling)

new_tcb-IsFresh : (old : Tcb) (gid : ℕ) → IsFresh old gid (new_tcb old gid)
unfolding new_tcb
new_tcb-IsFresh old gid = record {
  named = refl;
  unnamed = refl;
  inactive = refl;
  no_space = refl;
  no_utcb = refl;
  no_pager = refl;
  no_scheduler = refl;
  middle = refl;
  registers = refl;
  partner = refl;
  siblings = (refl, refl);
}

-- What a successful `create_thread` does: it takes the first free block, sets it up as an inactive
-- thread, leaves the other blocks and the scheduler's heap alone, and lists one thread more.
pub record IsCreated (k : Kernel) (gid i : ℕ) (k' : Kernel) : Type 0 where
  pub first : IsFirstFree k 0 thread_max_count i
  pub taken_now : k'.tcb_store_allocated i ≡ true
  pub set_up : IsFresh (k.tcb_store i) gid (k'.tcb_store i)
  pub others : (m : ℕ) → m ≢ i → k'.tcb_store m ≡ k.tcb_store m
  pub listed : k'.thread_count ≡ k.thread_count + 1
  pub heap : k'.schedule ≡ k.schedule
  pub room : k.thread_count ≢ thread_max_count

prepared : Kernel → ℕ → ℕ → Kernel
unfolding put_tcb
prepared k1 i gid = put_tcb k1 i (new_tcb (k1.tcb_store i) gid)

listed-IsCreated :
    (k : Kernel) (gid j : ℕ) (k2 : Kernel)
    → k.thread_count ≢ thread_max_count
    → allocate_tcb k ≡ some (j, taken k j)
    → thread_list_insert (prepared (taken k j) j gid) j gid ≡ some k2
    → IsCreated k gid j k2
unfolding prepared
listed-IsCreated k gid j k2 room e e2 =
    let (counted, blocks, bits, heap) =
      thread_list_insert-frame (prepared (taken k j) j gid) j gid {k' = k2} e2 in
    record {
      first = (allocate_tcb-first k {i = j} {k' = taken k j} e).0;
      taken_now = ground arith;
      set_up =
          subst (IsFresh (k.tcb_store j) gid) (sym (built blocks))
            (new_tcb-IsFresh (k.tcb_store j) gid);
      others = λ m p. rw blocks (ground arith);
      listed = counted;
      heap = heap;
      room = room;
    }
  where
    built :
        k2.tcb_store ≡ (prepared (taken k j) j gid).tcb_store
        → k2.tcb_store j ≡ new_tcb (k.tcb_store j) gid
    built blocks = rw blocks (ground arith)

listed_inv :
    (o : Option Kernel) (i j : ℕ) (k' : Kernel)
    → ◌>>=◌ {B = Option ℕ × Kernel} o (λ k2. some (some j, k2)) ≡ some (some i, k')
    → (o ≡ some k') × (j ≡ i)
listed_inv none i j k' h = absurd (cc)
listed_inv (some k2) i j k' h = (cc, cc)

-- A `create_thread` that returns a thread took the first free of the 16 control blocks, set it up as
-- an inactive thread of priority 42 with the given identifier and no address space, UTCB, local
-- identifier, pager or scheduler, left the other blocks and the heap alone, and lists
-- one thread more, where there were not yet 16.
pub create_thread-IsCreated :
    (k : Kernel) (gid : ℕ) {i : ℕ} {k' : Kernel}
    → create_thread k gid ≡ some (some i, k')
    → IsCreated k gid i k'
unfolding create_thread prepared
create_thread-IsCreated k gid {i} {k'} h = elim (Bool-cases (version gid == 0)) [
  | inl zero_version ↦ absurd (let g = (rw zero_version at h) in cc)
  | inr v ↦ elim (Bool-cases (k.thread_count == thread_max_count)) [
    | inl full ↦ absurd (let g = (rw (v, full) at h) in cc)
    | inr room ↦ elim (Option-cases (allocate_tcb k)) [
      | inl none_left ↦ absurd (let g = (rw (v, room, none_left) at h) in cc)
      | inr ((j, k1), e) ↦
          let t : k1 ≡ taken k j = (allocate_tcb-first k {i = j} {k' = k1} e).1 in
          let e' : allocate_tcb k ≡ some (j, taken k j) = rw t at e in
          let (o, same) =
            listed_inv (thread_list_insert (prepared (taken k j) j gid) j gid) i j k'
              (rw (v, room, e') at h) in
          rw (← same)
            (listed-IsCreated k gid j k' (ne_of_test k.thread_count thread_max_count room) e' o)
    ]
  ]
]
