-- ===== src/Ipc/Reach.antt =====
-- The searches of kern/syscall/ipc.c along the threads of an address space.
use bradyp_os.Base.{
  ℕ, zero, suc, ◌<◌, ◌≡◌, refl, inl, inr, Bool, true, false, Option, none, some, List, [], ◌∷◌,
  if◌then◌else◌, arith, Bool-cases,
}
use bradyp_os.Base.Lists.{length}
use bradyp_os.Kernel.{Kernel}
use bradyp_os.Ipc.{
  Search, nonexistent, notready, found, is_ready, is_named, first_thread, search_siblings,
  find_ipc_partner_anylocal, search_named, find_ipc_partner_local, sibling_limit,
}

-- From `p` on, the siblings are the threads `xs`.
abbrev pub IsSiblings : Kernel → Option ℕ → List ℕ → Type 0
IsSiblings k p [] = p ≡ none
IsSiblings k p (x ∷ xs) = (p ≡ some x) × IsSiblings k (k.tcb_store x).next_sibling xs

-- The threads of the address space of `target` are `xs`, in order.
pub record HasThreads (k : Kernel) (target : ℕ) (xs : List ℕ) : Type 0 where
  pub first : Option ℕ
  pub starts : first_thread k target ≡ some first
  pub chain : IsSiblings k first xs
  pub small : length xs < sibling_limit

abbrev pub first_ready : Kernel → ℕ → Bool → List ℕ → Search
first_ready k target sending [] = notready
first_ready k target sending (x ∷ xs) =
    if is_ready k target sending x then found x else first_ready k target sending xs

-- No thread at an even place of the list is named.
abbrev pub NoneNamed : Kernel → ℕ → Bool → List ℕ → Type 0
NoneNamed k who sending [] = Unit
NoneNamed k who sending (x ∷ []) = is_named k who sending x ≡ false
NoneNamed k who sending (x ∷ y ∷ xs) =
    (is_named k who sending x ≡ false) × NoneNamed k who sending xs

abbrev pub is_even_length : List ℕ → Bool
is_even_length [] = true
is_even_length (x ∷ []) = false
is_even_length (x ∷ y ∷ xs) = is_even_length xs

module _ (k : Kernel) (target : ℕ) (sending : Bool) where
  search_siblings-first_ready :
      (fuel : ℕ) (p : Option ℕ) (xs : List ℕ)
      → length xs < fuel
      → IsSiblings k p xs
      → search_siblings fuel p k target sending ≡ some (first_ready k target sending xs)
  unfolding search_siblings
  search_siblings-first_ready zero p xs f c = absurd (omega arith)
  search_siblings-first_ready (suc fuel) p [] f c = rw (c, search_siblings) refl
  search_siblings-first_ready (suc fuel) p (x ∷ xs) f c =
      let rest =
        search_siblings-first_ready fuel (k.tcb_store x).next_sibling xs (omega arith) c.1 in
      elim (Bool-cases (is_ready k target sending x)) [
        | inl hit ↦ rw (c.0, search_siblings, hit) refl
        | inr miss ↦ rw (c.0, search_siblings, miss) rest
      ]

  -- `find_ipc_partner_anylocal` ends, with the first thread of the caller's address space that is
  -- ready, or not ready where none is.
  pub find_ipc_partner_anylocal-first_ready :
      (xs : List ℕ)
      → HasThreads k target xs
      → find_ipc_partner_anylocal k target sending ≡ some (first_ready k target sending xs)
  unfolding find_ipc_partner_anylocal
  find_ipc_partner_anylocal-first_ready xs s =
      rw s.starts (search_siblings-first_ready sibling_limit s.first xs s.small s.chain)

  search_named-skips :
      (who fuel : ℕ) (p : Option ℕ) (xs : List ℕ)
      → length xs < fuel
      → IsSiblings k p xs
      → NoneNamed k who sending xs
      → search_named fuel p k target who sending
        ≡ (if is_even_length xs then some nonexistent else none)
  unfolding search_named
  search_named-skips who zero p xs f c m = absurd (omega arith)
  search_named-skips who (suc fuel) p [] f c m = rw (c, search_named) refl
  search_named-skips who (suc fuel) p (x ∷ []) f c m = rw (c.0, search_named, m, c.1) refl
  search_named-skips who (suc fuel) p (x ∷ y ∷ xs) f c m =
      rw (c.0, search_named, m.0, c.1.0)
        (search_named-skips who fuel (k.tcb_store y).next_sibling xs (omega arith) c.1.1 m.1)

  -- Where no thread at an even place of the caller's address space is named,
  -- `find_ipc_partner_local` says that there is no such thread, whatever stands at the odd places,
  -- and follows a NULL pointer where the number of threads is odd.
  pub find_ipc_partner_local-skips :
      (who : ℕ) (xs : List ℕ)
      → HasThreads k target xs
      → NoneNamed k who sending xs
      → find_ipc_partner_local k target who sending
        ≡ (if is_even_length xs then some nonexistent else none)
  unfolding find_ipc_partner_local
  find_ipc_partner_local-skips who xs s m =
      rw s.starts (search_named-skips who sibling_limit s.first xs s.small s.chain m)
