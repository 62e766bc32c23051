-- ===== src/Calls/Placement.antt =====
-- The page for UTCBs that a space control call of kern/syscall/space_control.c sets.
use mathlib.Core.Path.{subst}
use bradyp_os.Base.{
  ℕ, zero, suc, ◌+◌, ◌/◌, ◌%◌, ◌^◌, ◌<◌, ◌≡◌, ◌≢◌, refl, inl, inr, ◌∙◌, Bool, false, if◌then◌else◌,
  not, ◌&&◌, Option, none, some, ltb, leb, ◌==◌, ◌>>=◌, arith, Bool-cases, some_inj, if_inv,
  no_result, bind_inv,
}
use bradyp_os.Base.Array.{store}
use bradyp_os.Ids.{is_nil_thread}
use bradyp_os.Kernel.{ThreadState, Kernel, put_tcb}
use bradyp_os.Memory.{
  load_stack, save_stack, save_utcb, write_utcb, fpage_address, fpage_size, fpage_contains_object,
  stack_r0,
}
use bradyp_os.Spaces.{alloc_from, alloc_as, create_as, max_address_spaces}
use bradyp_os.Calls.{reject}
use bradyp_os.Calls.Threads.{utcb_area_size}
use bradyp_os.Calls.Spaces.{
  put_utcb_page, place_utcb_page, activate, accept, space_of, set_utcb_area, control_space,
}
use bradyp_os.Fpage.Laws.{shifted_one-small}
use bradyp_os.Scheduler.{set_thread_state}
use bradyp_os.Scheduler.Kept.{set_thread_state-Kept}

-- What a step keeps: the caller and the spaces.
record Keeps (k k' : Kernel) : Type 0 where
  caller : k'.caller ≡ k.caller
  spaces : k'.as_pool ≡ k.as_pool

started-Keeps :
    (k : Kernel) (t : ℕ) → Keeps k (set_thread_state (write_utcb k t) t ThreadState.active)
unfolding write_utcb save_utcb
started-Keeps k t =
    let s = set_thread_state-Kept (write_utcb k t) t ThreadState.active in
    record { caller = s.caller; spaces = s.spaces }

activate-Keeps :
    (k : Kernel) (t kip_area utcb_area : ℕ) {k' : Kernel}
    → activate k t kip_area utcb_area ≡ some k'
    → Keeps k k'
unfolding activate
activate-Keeps k t kip_area utcb_area h =
    elim (if_inv (not (kip_area == 0) && not (utcb_area == 0)) h) [
      | inl named ↦
          let (b, tested, rest) =
            bind_inv (fpage_contains_object utcb_area (k.tcb_store t).utcb utcb_area_size) _
              named in
          elim (if_inv (b && not (is_nil_thread (k.tcb_store t).pager)) (some_inj rest)) [
            | inl starts ↦ subst (Keeps k) starts (started-Keeps k t)
            | inr rests ↦ subst (Keeps k) rests (record { caller = refl; spaces = refl })
          ]
      | inr nil ↦ subst (Keeps k) (some_inj nil) (record { caller = refl; spaces = refl })
    ]

-- A size that C defines: the test of the page gives a result.
contains-some :
    (page base size : ℕ)
    → page / 2 ^ 4 % 2 ^ 6 < 23
    → (b : Bool) × (fpage_contains_object page base size ≡ some b)
unfolding fpage_contains_object fpage_size
contains-some page base size h =
    let bytes = shifted_one-small (page / 2 ^ 4 % 2 ^ 6) h in
    elim (Bool-cases (leb (fpage_address page) base)) [
      | inl from ↦ (
        ltb ((base + size) % 2 ^ 32)
            ((fpage_address page + 2 ^ (page / 2 ^ 4 % 2 ^ 6 + 9)) % 2 ^ 32),
        rw (from, bytes, ◌>>=◌) refl,
      )
      | inr before ↦ (false, rw before refl)
    ]

activate-some :
    (k : Kernel) (t kip_area utcb_area : ℕ)
    → utcb_area / 2 ^ 4 % 2 ^ 6 < 23
    → (k' : Kernel) × (activate k t kip_area utcb_area ≡ some k')
unfolding activate
activate-some k t kip_area utcb_area h =
    elim (Bool-cases (not (kip_area == 0) && not (utcb_area == 0))) [
      | inr nil ↦ (k, rw nil refl)
      | inl named ↦
          let (b, tested) = contains-some utcb_area (k.tcb_store t).utcb utcb_area_size h in
          (
            if b && not (is_nil_thread (k.tcb_store t).pager)
                then set_thread_state (write_utcb k t) t ThreadState.active
                else k,
            rw (named, tested, ◌>>=◌) refl,
          )
    ]

accept-result : (k : Kernel) → load_stack (accept k) (accept k).caller stack_r0 ≡ 1
unfolding accept save_stack load_stack store
accept-result k = ground arith

module _ (k : Kernel) (t s kip_area utcb_area : ℕ) where
  place_utcb_page-page :
      ((place_utcb_page k s utcb_area).caller ≡ k.caller)
      × (((place_utcb_page k s utcb_area).as_pool s).utcb_page ≡ utcb_area)
  unfolding place_utcb_page put_utcb_page reject save_utcb save_stack
  place_utcb_page-page = (ground arith, ground arith)

  -- A call that sets the page keeps the caller, reports success, and the space has the new page.
  record IsPlaced (k' : Kernel) : Type 0 where
    caller : k'.caller ≡ k.caller
    result : load_stack k' k'.caller stack_r0 ≡ 1
    page : (k'.as_pool s).utcb_page ≡ utcb_area

  accepted : {k1 : Kernel} → Keeps (place_utcb_page k s utcb_area) k1 → IsPlaced (accept k1)
  unfolding accept save_stack
  accepted {k1} a = record {
    caller = a.caller ∙ place_utcb_page-page.0;
    result = accept-result k1;
    page = rw a.spaces place_utcb_page-page.1;
  }

  set_utcb_area-IsPlaced :
      {k' : Kernel} → set_utcb_area k t s kip_area utcb_area ≡ some k' → IsPlaced k'
  unfolding set_utcb_area
  set_utcb_area-IsPlaced h =
      let place = place_utcb_page k s utcb_area in
      let (k1, run, rest) = bind_inv (activate place t kip_area utcb_area) _ h in
      subst IsPlaced (some_inj rest) (accepted (activate-Keeps place t kip_area utcb_area run))

  set_utcb_area-some :
      utcb_area / 2 ^ 4 % 2 ^ 6 < 23
      → (k' : Kernel) × (set_utcb_area k t s kip_area utcb_area ≡ some k')
  unfolding set_utcb_area
  set_utcb_area-some h =
      let (k1, run) = activate-some (place_utcb_page k s utcb_area) t kip_area utcb_area h in
      (accept k1, rw run refl)

-- A space control call for a thread whose address space has its UTCB page already, which the call is
-- meant to refuse, returns, reports success, and gives the space the new page, whose size field is at most
-- 22.
pub control_space-replaces :
    (kip_fpage : ℕ) (k : Kernel) (t s utcb_area : ℕ)
    → (k.tcb_store t).space ≡ some s
    → (k.as_pool s).utcb_page ≢ 0
    → utcb_area / 2 ^ 4 % 2 ^ 6 < 23
    → (k' : Kernel) × (control_space kip_fpage k (some t) kip_fpage utcb_area ≡ some k')
      × (load_stack k' k'.caller stack_r0 ≡ 1)
      × ((k'.as_pool s).utcb_page ≡ utcb_area)
unfolding control_space space_of
control_space-replaces kip_fpage k t s utcb_area joined taken small =
    let (k', run) = set_utcb_area-some k t s kip_fpage utcb_area small in
    let p = set_utcb_area-IsPlaced k t s kip_fpage utcb_area run in
    (k', rw joined (ground (arith, run)), p.result, p.page)

alloc_from-caller : (n i : ℕ) (k : Kernel) → (alloc_from n i k).1.caller ≡ k.caller
unfolding alloc_from
alloc_from-caller zero i k = refl
alloc_from-caller (suc n) i k = elim (Bool-cases (k.as_allocated i)) [
  | inl taken ↦ rw (alloc_from, taken) (alloc_from-caller n (i + 1) k)
  | inr free ↦ rw (alloc_from, free) refl
]

create_as-caller :
    (k : Kernel) (owner : ℕ) {r : ℕ × Kernel} → create_as k owner ≡ some r → r.1.caller ≡ k.caller
unfolding create_as alloc_as
create_as-caller k owner {r} h =
    elim (if_inv ((alloc_from max_address_spaces 0 k).0 == max_address_spaces) h) [
      | inl a ↦ no_result a
      | inr a ↦
          subst (λ x. x.1.caller ≡ k.caller) (some_inj a) (alloc_from-caller max_address_spaces 0 k)
    ]

space_of-caller :
    (k : Kernel) (t : ℕ) (space : Option ℕ) {r : ℕ × Kernel}
    → space_of k t space ≡ some r
    → r.1.caller ≡ k.caller
unfolding space_of put_tcb put_utcb_page
space_of-caller k t (some s) h = subst (λ x. x.1.caller ≡ k.caller) (some_inj h) refl
space_of-caller k t none {r} h =
    let (c, made, rest) = bind_inv (create_as k t) _ h in
    subst (λ x. x.1.caller ≡ k.caller) (some_inj rest) (create_as-caller k t made)

pub control_space-caller :
    (kip_fpage : ℕ) (k : Kernel) (t : Option ℕ) (kip_area utcb_area : ℕ) {k' : Kernel}
    → control_space kip_fpage k t kip_area utcb_area ≡ some k'
    → k'.caller ≡ k.caller
unfolding control_space reject save_utcb save_stack
control_space-caller kip_fpage k none kip_area utcb_area h =
    subst (λ x. x.caller ≡ k.caller) (some_inj h) refl
control_space-caller kip_fpage k (some t) kip_area utcb_area {k'} h =
    elim (if_inv (not (kip_area == kip_fpage)) h) [
      | inl a ↦ subst (λ x. x.caller ≡ k.caller) (some_inj a) refl
      | inr a ↦
          let (r, placed, rest) = bind_inv (space_of k t (k.tcb_store t).space) _ a in
          let p = set_utcb_area-IsPlaced r.1 t r.0 kip_area utcb_area rest in
          p.caller ∙ space_of-caller k t (k.tcb_store t).space placed
    ]
