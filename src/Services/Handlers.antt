-- ===== src/Services/Handlers.antt =====
-- The message handlers of usr/root/service.c: a registration and a later lookup, and the registry's
-- bound.
use bradyp_os.Base.{
  ℕ, ◌+◌, ◌/◌, ◌%◌, ◌≤◌, ◌≡◌, ◌≢◌, refl, inl, inr, Bool, true, false, not, ◌&&◌, none, some, ◌==◌,
  arith, Option-cases, test_of_ne, ap, sym, ◌∙◌,
}
use bradyp_os.Base.Array.{Array}
use bradyp_os.Ids.{is_local_id}
use bradyp_os.Services.{
  ServiceDesc, Registry, Reply, serv_error, serv_get_ret, enoent, global_id_of, serv_register_ret,
  max_service_count, find_service_desc, append, sender, handle_service_get, handle_service_register,
}
use bradyp_os.Services.Lookup.{is_known, find-append, append-last, find_other, found_kept}

abbrev pub is_registered : Reply → Bool
is_registered serv_register_ret = true
is_registered _ = false

-- What a registration does: it is accepted where the message has one word, no typed items, and there
-- is room; then the registry grows by one entry, and else it stays as it is.
pub record IsAnswered (s : Registry) (u t : ℕ) (reply : Reply) (s' : Registry) : Type 0 where
  pub bound : s'.service_count ≤ max_service_count
  pub accepted :
      is_registered reply ≡ (u == 1 && t == 0 && not (s.service_count == max_service_count))
  pub grown : is_registered reply ≡ true → s'.service_count ≡ s.service_count + 1
  pub kept : is_registered reply ≡ false → s' ≡ s

get-found :
    (s : Registry) (name : ℕ) {i : ℕ}
    → find_service_desc s name ≡ some i
    → handle_service_get s 1 0 name ≡ serv_get_ret (s.services i).thread
unfolding handle_service_get
get-found s name e = rw (handle_service_get, e) refl

-- What a lookup in `s'` answers, behind a registration of `name` by `from` in `s`.
pub record IsRegistered (memory : Array) (s : Registry) (from name : ℕ) (s' : Registry)
    : Type 0 where
  pub of_local : from % 128 ≡ 0 → handle_service_get s' 1 0 name ≡ serv_get_ret (memory (from / 4))
  pub of_global : from % 128 ≢ 0 → handle_service_get s' 1 0 name ≡ serv_get_ret from
  pub others :
      (other : ℕ) → name ≢ other → handle_service_get s' 1 0 other ≡ handle_service_get s 1 0 other

local_sender : (memory : Array) (from : ℕ) → from % 128 ≡ 0 → sender memory from ≡ memory (from / 4)
unfolding sender is_local_id global_id_of
local_sender memory from h = ground (arith, h)

global_sender : (memory : Array) (from : ℕ) → from % 128 ≢ 0 → sender memory from ≡ from
unfolding sender is_local_id
global_sender memory from h = ground (arith, h)

absent : (s : Registry) (name : ℕ) → is_known s name ≡ false → find_service_desc s name ≡ none
absent s name new = elim (Option-cases (find_service_desc s name)) [
  | inl e ↦ e
  | inr (i, known) ↦ absurd (let h = (rw known at new) in cc)
]

get_absent :
    (s : Registry) (name : ℕ)
    → find_service_desc s name ≡ none
    → handle_service_get s 1 0 name ≡ serv_error enoent
unfolding handle_service_get
get_absent s name e = rw (handle_service_get, e) refl

-- An appended entry of a new name is found, and other names are answered as before.
get_last :
    (s : Registry) (d : ServiceDesc)
    → find_service_desc s d.name ≡ none
    → handle_service_get (append s d) 1 0 d.name ≡ serv_get_ret d.thread
get_last s d e =
    get-found (append s d) d.name {i = s.service_count}
      (rw (find-append s d d.name, e) (ground arith))
    ∙ ap serv_get_ret (ap (λ e. e.thread) (append-last s d))

get_other :
    (s : Registry) (d : ServiceDesc) (other : ℕ)
    → d.name ≢ other
    → handle_service_get (append s d) 1 0 other ≡ handle_service_get s 1 0 other
get_other s d other ne =
    let same = find_other s d other (test_of_ne d.name other ne) in
    elim (Option-cases (find_service_desc s other)) [
      | inl e ↦ get_absent (append s d) other (same ∙ e) ∙ sym (get_absent s other e)
      | inr (i, e) ↦
          get-found (append s d) other {i = i} (same ∙ e)
          ∙ ap (λ (x : ServiceDesc). serv_get_ret x.thread) (found_kept s d other {i = i} e)
          ∙ sym (get-found s other {i = i} e)
    ]

appended :
    (memory : Array) (s : Registry) (from name thread : ℕ)
    → find_service_desc s name ≡ none
    → (from % 128 ≡ 0 → thread ≡ memory (from / 4))
    → (from % 128 ≢ 0 → thread ≡ from)
    → IsRegistered memory s from name (append s (record { thread = thread; name = name }))
appended memory s from name thread e near far =
    let d : ServiceDesc = record { thread = thread; name = name } in
    record {
      of_local = λ h. get_last s d e ∙ ap serv_get_ret (near h);
      of_global = λ h. get_last s d e ∙ ap serv_get_ret (far h);
      others = λ other ne. get_other s d other ne;
    }

module _ (memory : Array) (s : Registry) where
  -- In a registry of at most 16 services, `handle_service_register` answers as `IsAnswered` says: the
  -- registry has at most 16 services still.
  pub handle_service_register-IsAnswered :
      (u t from name : ℕ)
      → s.service_count ≤ max_service_count
      → IsAnswered s u t
          (handle_service_register memory s u t from name).0
          (handle_service_register memory s u t from name).1
  unfolding handle_service_register append
  handle_service_register-IsAnswered u t from name b = record {
    bound = ground arith;
    accepted = ground arith;
    grown = λ h. ground arith;
    kept = λ h. ground arith;
  }

  -- Where there is room and the name is not registered yet, a lookup after a registration answers as
  -- `IsRegistered` says: for the new name with the global identifier of the sender, which for a local
  -- one is the first word of the UTCB at that address, and for other names as before.
  pub handle_service_get-register :
      (from name : ℕ)
      → s.service_count ≢ max_service_count
      → is_known s name ≡ false
      → IsRegistered memory s from name (handle_service_register memory s 1 0 from name).1
  unfolding handle_service_register
  handle_service_get-register from name room new =
      rw (test_of_ne s.service_count max_service_count room) (
        appended memory s from name (sender memory from) (absent s name new)
          (local_sender memory from) (global_sender memory from))
