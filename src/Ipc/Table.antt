-- ===== src/Ipc/Table.antt =====
-- The searches of kern/syscall/ipc.c stay in the table of threads, and do not find a running thread.
use mathlib.Core.Path.{subst}
use bradyp_os.Base.{
  bind_inv, some_inj, ℕ, zero, suc, ◌+◌, ◌<◌, ◌≡◌, ◌≢◌, refl, inl, inr, Bool, true, false, ◌&&◌,
  Option, none, some, ◌==◌, if◌then◌else◌, arith, Bool-cases, Option-cases,
}
use bradyp_os.Ids.{anythread, anylocalthread, is_local_id}
use bradyp_os.Kernel.{ThreadState, Kernel, is_runnable, is_active, thread_max_count}
use bradyp_os.Thread.{
  find_thread_by_global_id, thread_map_find, thread_list_find, get_thread_by_index,
}
use bradyp_os.Scheduler.Frame.{IsTable, IsServing}
use bradyp_os.Ipc.{
  Search, nonexistent, notready, found, pager_msg, is_viable_ipc_partner, is_ready, is_named,
  awaits, search_list, find_ipc_partner_any, search_siblings, find_ipc_partner_anylocal,
  search_named, find_ipc_partner_local, shares_space, find_ipc_partner_global, find_ipc_partner,
  first_thread, sibling_limit,
}
use bradyp_os.Ipc.Partner.{Answers, find_ipc_partner-Answers}

abbrev pub IsInTable : Search → Type 0
IsInTable nonexistent = Unit
IsInTable notready = Unit
IsInTable (found i) = i < thread_max_count
IsInTable (pager_msg i) = i < thread_max_count

abbrev IsLink : Option ℕ → Type 0
IsLink p = (t : ℕ) → p ≡ some t → t < thread_max_count

module _ (k : Kernel) (v : IsTable k) where
  -- A lookup by identifier names one of the 16 blocks.
  pub find_thread-lt :
      (gid : ℕ) {t : ℕ} → find_thread_by_global_id k gid ≡ some t → t < thread_max_count
  unfolding find_thread_by_global_id thread_map_find
  find_thread-lt gid h = ground (arith, v.list (thread_list_find k gid))

  first_thread-IsLink :
      (target : ℕ) {first : Option ℕ} → first_thread k target ≡ some first → IsLink first
  unfolding first_thread
  first_thread-IsLink target h = elim (Option-cases (k.tcb_store target).space) [
    | inl e ↦ absurd (let g = (rw (first_thread, e) at h) in cc)
    | inr (s, e) ↦ subst IsLink (some_inj (rw (first_thread, e) at h)) (v.firsts s)
  ]

module _ (k : Kernel) (v : IsTable k) (target : ℕ) (sending : Bool) where
  search_list-IsInTable : (n i : ℕ) → IsInTable (search_list n i k target sending)
  unfolding search_list get_thread_by_index
  search_list-IsInTable zero i = tt
  search_list-IsInTable (suc n) i =
      elim (Bool-cases (is_ready k target sending (k.thread_list i))) [
        | inl hit ↦ rw hit (v.list i)
        | inr miss ↦ rw miss (search_list-IsInTable n (i + 1))
      ]

  search_siblings-IsInTable :
      (fuel : ℕ) (p : Option ℕ) {r : Search}
      → IsLink p
      → search_siblings fuel p k target sending ≡ some r
      → IsInTable r
  unfolding search_siblings
  search_siblings-IsInTable zero p l h = absurd (cc)
  search_siblings-IsInTable (suc fuel) none l h = subst IsInTable (some_inj h) tt
  search_siblings-IsInTable (suc fuel) (some i) {r} l h =
      elim (Bool-cases (is_ready k target sending i)) [
        | inl hit ↦ subst IsInTable (some_inj (rw hit at h)) (l i refl)
        | inr miss ↦
            search_siblings-IsInTable fuel (k.tcb_store i).next_sibling {r = r} (v.siblings i)
              (rw miss at h)
      ]

  answer-IsInTable :
      (i : ℕ)
      → i < thread_max_count
      → IsInTable (if is_viable_ipc_partner k target i then found i else notready)
  answer-IsInTable i p = elim (Bool-cases (is_viable_ipc_partner k target i)) [
    | inl viable ↦ rw viable p
    | inr not_viable ↦ rw not_viable tt
  ]

  search_named-IsInTable :
      (fuel : ℕ) (p : Option ℕ) (who : ℕ) {r : Search}
      → IsLink p
      → search_named fuel p k target who sending ≡ some r
      → IsInTable r
  unfolding search_named
  search_named-IsInTable zero p who l h = absurd (cc)
  search_named-IsInTable (suc fuel) none who l h = subst IsInTable (some_inj h) tt
  search_named-IsInTable (suc fuel) (some i) who {r} l h =
      elim (Bool-cases (is_named k who sending i)) [
        | inl hit ↦ subst IsInTable (some_inj (rw hit at h)) (answer-IsInTable i (l i refl))
        | inr miss ↦
            let (j, e, rest) =
              bind_inv (k.tcb_store i).next_sibling
                (λ j. search_named fuel (k.tcb_store j).next_sibling k target who sending) {b = r}
                (rw miss at h) in
            search_named-IsInTable fuel (k.tcb_store j).next_sibling who {r = r} (v.siblings j) rest
      ]

  global-IsInTable :
      (tcb : Option ℕ) → IsLink tcb → IsInTable (find_ipc_partner_global k target sending tcb)
  unfolding find_ipc_partner_global
  global-IsInTable none l = tt
  global-IsInTable (some i) l = elim (Bool-cases (is_ready k target sending i)) [
    | inl hit ↦ rw hit (l i refl)
    | inr miss ↦
        elim (Bool-cases (
          sending
          && is_active (k.tcb_store i).state
          && shares_space k target (find_thread_by_global_id k (k.tcb_store i).pager))) [
            | inl starts ↦ rw (miss, starts) (l i refl)
            | inr fails ↦ rw (miss, fails) tt
          ]
  ]

  anylocal-IsInTable :
      {r : Search} → find_ipc_partner_anylocal k target sending ≡ some r → IsInTable r
  unfolding find_ipc_partner_anylocal
  anylocal-IsInTable {r} h =
      let (first, e, rest) =
        bind_inv (first_thread k target) (λ f. search_siblings sibling_limit f k target sending)
          {b = r} h in
      search_siblings-IsInTable sibling_limit first {r = r} (first_thread-IsLink k v target e) rest

  local-IsInTable :
      (who : ℕ) {r : Search} → find_ipc_partner_local k target who sending ≡ some r → IsInTable r
  unfolding find_ipc_partner_local
  local-IsInTable who {r} h =
      let (first, e, rest) =
        bind_inv (first_thread k target) (λ f. search_named sibling_limit f k target who sending)
          {b = r} h in
      search_named-IsInTable sibling_limit first who {r = r} (first_thread-IsLink k v target e) rest

  -- A partner is one of the 16 threads.
  pub find_ipc_partner-IsInTable :
      (who : ℕ) {r : Search} → find_ipc_partner k target who sending ≡ some r → IsInTable r
  unfolding find_ipc_partner find_ipc_partner_any
  find_ipc_partner-IsInTable who {r} h = elim (Bool-cases (who == anythread)) [
    | inl any ↦ subst IsInTable (some_inj (rw any at h)) (search_list-IsInTable k.thread_count 0)
    | inr not_any ↦ elim (Bool-cases (who == anylocalthread)) [
      | inl anylocal ↦ anylocal-IsInTable {r = r} (rw (not_any, anylocal) at h)
      | inr not_anylocal ↦ elim (Bool-cases (is_local_id who)) [
        | inl local ↦ local-IsInTable who {r = r} (rw (not_any, not_anylocal, local) at h)
        | inr global ↦
            subst IsInTable (some_inj (rw (not_any, not_anylocal, global) at h))
              (global-IsInTable (find_thread_by_global_id k who) (λ t e. find_thread-lt k v who e))
      ]
    ]
  ]

-- A thread whose state is not runnable does not run.
blocked-ne-current :
    (k : Kernel) (i : ℕ)
    → IsServing k
    → is_runnable (k.tcb_store i).state ≡ false
    → i ≢ k.current_thread_idx
blocked-ne-current k i v blocked e = absurd (let h = v.runs in let g = (rw (← e) at h) in cc)

awaits-not-runnable :
    (sending : Bool) (s : ThreadState) → awaits sending s ≡ true → is_runnable s ≡ false
awaits-not-runnable true s h = ground arith
awaits-not-runnable false s h = ground arith

-- A partner is another thread than the running one.
abbrev pub IsPartner : Kernel → Search → Type 0
IsPartner k nonexistent = Unit
IsPartner k notready = Unit
IsPartner k (found i) = (i < thread_max_count) × (i ≢ k.current_thread_idx)
IsPartner k (pager_msg i) = (i < thread_max_count) × (i ≢ k.current_thread_idx)

IsPartner-of_Answers :
    (k : Kernel) (target : ℕ) (sending : Bool) (r : Search)
    → IsServing k
    → IsInTable r
    → Answers k target sending r
    → IsPartner k r
IsPartner-of_Answers k target sending nonexistent v i a = tt
IsPartner-of_Answers k target sending notready v i a = tt
IsPartner-of_Answers k target sending (found t) v i a =
    (i, blocked-ne-current k t v (awaits-not-runnable sending (k.tcb_store t).state a.0))
IsPartner-of_Answers k target sending (pager_msg t) v i a =
    (i, blocked-ne-current k t v (ground (arith, a.1)))

pub find_ipc_partner-IsPartner :
    (k : Kernel) (target who : ℕ) (sending : Bool) {r : Search}
    → IsServing k
    → find_ipc_partner k target who sending ≡ some r
    → IsPartner k r
find_ipc_partner-IsPartner k target who sending {r} v h =
    IsPartner-of_Answers k target sending r v
      (find_ipc_partner-IsInTable k v.tables target sending who {r = r} h)
      (find_ipc_partner-Answers k target sending who {r = r} h)
