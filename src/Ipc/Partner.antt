-- ===== src/Ipc/Partner.antt =====
-- What the search for a partner of kern/syscall/ipc.c returns, by the thread list and by identifier.
use native.Mathlib.Decide.{ℕ_discrete}
use mathlib.Core.Path.{subst}
use bradyp_os.Base.{
  bind_inv, some_inj, refl, ℕ, zero, suc, ◌+◌, ◌≤◌, ◌<◌, ◌≡◌, inl, inr, Bool, true, false, Option,
  none, some, ◌&&◌, ◌==◌, if◌then◌else◌, arith, Bool-cases,
}
use bradyp_os.Ids.{anythread, anylocalthread, thread_no, is_local_id}
use bradyp_os.Kernel.{Kernel, is_active, thread_idx_invalid}
use bradyp_os.Thread.{find_thread_by_global_id, get_thread_by_index, number_at}
use bradyp_os.Thread.Find.{IsSorted, find_thread-listed}
use bradyp_os.Ipc.{
  Search, nonexistent, notready, found, pager_msg, is_viable_ipc_partner, is_ready, awaits,
  is_named, search_list, find_ipc_partner_any, search_siblings, find_ipc_partner_anylocal,
  search_named, find_ipc_partner_local, shares_space, find_ipc_partner_global, find_ipc_partner,
  first_thread, sibling_limit,
}

-- What a search may answer: a partner waits for the caller; a message for the start of a thread is
-- sent, to an active thread whose pager shares the caller's address space.
abbrev pub Answers : Kernel → ℕ → Bool → Search → Type 0
Answers k target sending nonexistent = Unit
Answers k target sending notready = Unit
Answers k target sending (found i) =
    (awaits sending (k.tcb_store i).state ≡ true) × (is_viable_ipc_partner k target i ≡ true)
Answers k target sending (pager_msg i) =
    (sending ≡ true)
    × (is_active (k.tcb_store i).state ≡ true)
    × (shares_space k target (find_thread_by_global_id k (k.tcb_store i).pager) ≡ true)

-- The first ready thread from `i` on, below `n`, or none.
pub data FirstReady (k : Kernel) (target : ℕ) (sending : Bool) (i n : ℕ) : Search → Type 0 where
  first_at :
      (j : ℕ)
      → i ≤ j
      → j < n
      → is_ready k target sending (k.thread_list j) ≡ true
      → ((m : ℕ) → i ≤ m → m < j → is_ready k target sending (k.thread_list m) ≡ false)
      → FirstReady k target sending i n (found (k.thread_list j))
  nowhere :
      ((m : ℕ) → i ≤ m → m < n → is_ready k target sending (k.thread_list m) ≡ false)
      → FirstReady k target sending i n notready

and_inv : (a b : Bool) → (a && b) ≡ true → (a ≡ true) × (b ≡ true)
and_inv a b h = ground arith

module _ (k : Kernel) (target : ℕ) (sending : Bool) where
  ready-Answers : (i : ℕ) → is_ready k target sending i ≡ true → Answers k target sending (found i)
  unfolding is_ready
  ready-Answers i h = and_inv _ _ h

  widen :
      (i n : ℕ) {r : Search}
      → is_ready k target sending (k.thread_list i) ≡ false
      → FirstReady k target sending (i + 1) n r
      → FirstReady k target sending i n r
  widen i n miss (first_at j p q h before) =
      first_at j (omega arith) q h
        (λ m le lt. elim (ℕ_discrete m i) [ yes e ↦ rw e miss | no ne ↦ before m (omega arith) lt ])
  widen i n miss (nowhere none_ready) = nowhere (λ m le lt. elim (ℕ_discrete m i) [
    | yes e ↦ rw e miss
    | no ne ↦ none_ready m (omega arith) lt
  ])

  search_list-FirstReady :
      (n i m : ℕ) → m ≡ i + n → FirstReady k target sending i m (search_list n i k target sending)
  unfolding search_list get_thread_by_index
  search_list-FirstReady zero i m e = nowhere (λ j p q. absurd (omega arith))
  search_list-FirstReady (suc n) i m e =
      elim (Bool-cases (is_ready k target sending (k.thread_list i))) [
        | inl hit ↦
            rw hit (first_at i (omega arith) (omega arith) hit (λ j p q. absurd (omega arith)))
        | inr miss ↦ rw miss (widen i m miss (search_list-FirstReady n (i + 1) m (omega arith)))
      ]

  -- `find_ipc_partner_any` answers with the first ready thread of the list, and is not ready only
  -- where no listed thread is ready.
  pub find_ipc_partner_any-FirstReady :
      FirstReady k target sending 0 k.thread_count (find_ipc_partner_any k target sending)
  unfolding find_ipc_partner_any
  find_ipc_partner_any-FirstReady =
      search_list-FirstReady k.thread_count 0 k.thread_count (omega arith)

  search_list-Answers : (n i : ℕ) → Answers k target sending (search_list n i k target sending)
  unfolding search_list get_thread_by_index
  search_list-Answers zero i = tt
  search_list-Answers (suc n) i = elim (Bool-cases (is_ready k target sending (k.thread_list i))) [
    | inl hit ↦ rw hit (ready-Answers (k.thread_list i) hit)
    | inr miss ↦ rw miss (search_list-Answers n (i + 1))
  ]

  search_siblings-Answers :
      (fuel : ℕ) (current : Option ℕ) {r : Search}
      → search_siblings fuel current k target sending ≡ some r
      → Answers k target sending r
  unfolding search_siblings
  search_siblings-Answers zero current h = absurd (cc)
  search_siblings-Answers (suc fuel) none {r} h = subst (Answers k target sending) (some_inj h) tt
  search_siblings-Answers (suc fuel) (some i) {r} h =
      elim (Bool-cases (is_ready k target sending i)) [
        | inl hit ↦ subst (Answers k target sending) (some_inj (rw hit at h)) (ready-Answers i hit)
        | inr miss ↦
            search_siblings-Answers fuel (k.tcb_store i).next_sibling {r = r} (rw miss at h)
      ]

  named-Answers :
      (who i : ℕ)
      → is_named k who sending i ≡ true
      → Answers k target sending (if is_viable_ipc_partner k target i then found i else notready)
  unfolding is_named
  named-Answers who i h = elim (Bool-cases (is_viable_ipc_partner k target i)) [
    | inl viable ↦ rw viable ((and_inv _ _ h).0, viable)
    | inr not_viable ↦ rw not_viable tt
  ]

  search_named-Answers :
      (fuel : ℕ) (current : Option ℕ) (who : ℕ) {r : Search}
      → search_named fuel current k target who sending ≡ some r
      → Answers k target sending r
  unfolding search_named
  search_named-Answers zero current who h = absurd (cc)
  search_named-Answers (suc fuel) none who {r} h = subst (Answers k target sending) (some_inj h) tt
  search_named-Answers (suc fuel) (some i) who {r} h =
      elim (Bool-cases (is_named k who sending i)) [
        | inl hit ↦
            subst (Answers k target sending) (some_inj (rw hit at h)) (named-Answers who i hit)
        | inr miss ↦
            let (j, e, rest) =
              bind_inv (k.tcb_store i).next_sibling
                (λ j. search_named fuel (k.tcb_store j).next_sibling k target who sending) {b = r}
                (rw miss at h) in
            search_named-Answers fuel (k.tcb_store j).next_sibling who {r = r} rest
      ]

  find_ipc_partner_anylocal-Answers :
      {r : Search}
      → find_ipc_partner_anylocal k target sending ≡ some r
      → Answers k target sending r
  unfolding find_ipc_partner_anylocal
  find_ipc_partner_anylocal-Answers {r} h =
      let (first, e, rest) =
        bind_inv (first_thread k target) (λ f. search_siblings sibling_limit f k target sending)
          {b = r} h in
      search_siblings-Answers sibling_limit first {r = r} rest

  find_ipc_partner_local-Answers :
      (who : ℕ) {r : Search}
      → find_ipc_partner_local k target who sending ≡ some r
      → Answers k target sending r
  unfolding find_ipc_partner_local
  find_ipc_partner_local-Answers who {r} h =
      let (first, e, rest) =
        bind_inv (first_thread k target) (λ f. search_named sibling_limit f k target who sending)
          {b = r} h in
      search_named-Answers sibling_limit first who {r = r} rest

  find_ipc_partner_global-Answers :
      (tcb : Option ℕ) → Answers k target sending (find_ipc_partner_global k target sending tcb)
  unfolding find_ipc_partner_global
  find_ipc_partner_global-Answers none = tt
  find_ipc_partner_global-Answers (some i) = elim (Bool-cases (is_ready k target sending i)) [
    | inl hit ↦ rw hit (ready-Answers i hit)
    | inr miss ↦
        elim (Bool-cases (
          sending
          && is_active (k.tcb_store i).state
          && shares_space k target (find_thread_by_global_id k (k.tcb_store i).pager))) [
            | inl starts ↦
                let (both, shares) = and_inv _ _ starts in
                rw (miss, starts) ((and_inv _ _ both).0, (and_inv _ _ both).1, shares)
            | inr fails ↦ rw (miss, fails) tt
          ]
  ]

  -- Whatever `find_ipc_partner` is asked for, a partner that it finds waits for the caller, and a
  -- thread that it starts is active, with a pager in the address space of the caller, which sends.
  pub find_ipc_partner-Answers :
      (who : ℕ) {r : Search}
      → find_ipc_partner k target who sending ≡ some r
      → Answers k target sending r
  unfolding find_ipc_partner find_ipc_partner_any
  find_ipc_partner-Answers who {r} h = elim (Bool-cases (who == anythread)) [
    | inl any ↦
        subst (Answers k target sending) (some_inj (rw any at h))
          (search_list-Answers k.thread_count 0)
    | inr not_any ↦ elim (Bool-cases (who == anylocalthread)) [
      | inl anylocal ↦ find_ipc_partner_anylocal-Answers {r = r} (rw (not_any, anylocal) at h)
      | inr not_anylocal ↦ elim (Bool-cases (is_local_id who)) [
        | inl local ↦
            find_ipc_partner_local-Answers who {r = r} (rw (not_any, not_anylocal, local) at h)
        | inr global ↦
            subst (Answers k target sending) (some_inj (rw (not_any, not_anylocal, global) at h))
              (find_ipc_partner_global-Answers (find_thread_by_global_id k who))
      ]
    ]
  ]

  -- In a sorted list, a search for the global identifier of a listed thread, which the list names as
  -- a block, finds the thread where it waits for the caller.
  pub find_ipc_partner-ready :
      (who i : ℕ)
      → (who == anythread) ≡ false
      → (who == anylocalthread) ≡ false
      → is_local_id who ≡ false
      → IsSorted k
      → number_at k i ≡ thread_no who
      → i < k.thread_count
      → k.thread_list i < thread_idx_invalid
      → awaits sending (k.tcb_store (k.thread_list i)).state ≡ true
      → is_viable_ipc_partner k target (k.thread_list i) ≡ true
      → find_ipc_partner k target who sending ≡ some (found (k.thread_list i))
  unfolding find_ipc_partner find_ipc_partner_global is_ready
  find_ipc_partner-ready who i not_any not_anylocal global sorted number listed block waits viable =
      rw
        (
          not_any,
          not_anylocal,
          global,
          find_thread-listed k who i sorted number listed block,
          waits,
          viable,
        )
        refl
