-- ===== src/Services/Lookup.antt =====
-- What the registry of usr/root/service.c answers after a registration.
use native.Mathlib.Numerals.{add-one}
use bradyp_os.Base.{
  sym, ◌∙◌, leb, ℕ, zero, suc, ◌+◌, ◌<◌, ◌≡◌, refl, inl, inr, Bool, true, false, ◌&&◌, ltb, Option,
  none, some, ◌==◌, if◌then◌else◌, arith, Bool-cases, Option-cases,
}
use bradyp_os.Ids.{nilthread}
use bradyp_os.Services.{
  ServiceDesc, Registry, max_service_count, find_from, find_service_desc, get_service, append,
  register_service,
}

abbrev pub or_at : Option ℕ → Bool → ℕ → Option ℕ
or_at none b i = if b then some i else none
or_at (some j) b i = some j

find_from-below :
    (n i : ℕ) (f : ℕ → ServiceDesc) (name : ℕ) {j : ℕ} → find_from n i f name ≡ some j → j < i + n
unfolding find_from
find_from-below zero i f name h = absurd (cc)
find_from-below (suc n) i f name {j} h = elim (Bool-cases ((f i).name == name)) [
  | inl hit ↦ let here : i ≡ j = (let g = (rw hit at h) in cc) in omega arith
  | inr miss ↦ omega (arith, find_from-below n (i + 1) f name {j = j} (rw miss at h))
]

find_from-append :
    (n i m : ℕ) (f g : ℕ → ServiceDesc) (d : ServiceDesc) (name : ℕ)
    → m ≡ i + n
    → ((j : ℕ) → j < m → g j ≡ f j)
    → g m ≡ d
    → find_from (suc n) i g name ≡ or_at (find_from n i f name) (d.name == name) m
unfolding find_from
find_from-append zero i m f g d name e same last =
    let here : i ≡ m = omega arith in rw (find_from, here, last) refl
find_from-append (suc n) i m f g d name e same last =
    let rest = find_from-append n (i + 1) m f g d name (omega arith) same last in
    let here : g i ≡ f i = same i (omega arith) in
    elim (Bool-cases ((f i).name == name)) [
      | inl hit ↦ rw (find_from, here, hit) refl
      | inr miss ↦ rw (find_from, here, miss) rest
    ]

-- A lookup behind an appended entry: the entries before it count first.
pub find-append :
    (s : Registry) (d : ServiceDesc) (name : ℕ)
    → find_service_desc (append s d) name
      ≡ or_at (find_service_desc s name) (d.name == name) s.service_count
unfolding find_service_desc append
find-append s d name = rw add-one (
    find_from-append s.service_count 0 s.service_count s.services (append s d).services d name
      (omega arith) (λ j p. ground arith) (ground arith))

abbrev pub is_some : Option ℕ → Bool
is_some none = false
is_some (some i) = true

-- The name is registered.
abbrev pub is_known : Registry → ℕ → Bool
is_known s name = is_some (find_service_desc s name)

append-at :
    (s : Registry) (d : ServiceDesc) (i : ℕ)
    → i < s.service_count
    → (append s d).services i ≡ s.services i
unfolding append
append-at s d i p = ground arith

pub append-last : (s : Registry) (d : ServiceDesc) → (append s d).services s.service_count ≡ d
unfolding append
append-last s d = ground arith

or_at_other : (o : Option ℕ) (i : ℕ) → or_at o false i ≡ o
or_at_other none i = refl
or_at_other (some j) i = refl

-- An appended entry of another name changes neither which entry is found nor that entry.
pub find_other :
    (s : Registry) (d : ServiceDesc) (name : ℕ)
    → (d.name == name) ≡ false
    → find_service_desc (append s d) name ≡ find_service_desc s name
find_other s d name other =
    find-append s d name ∙ (rw other (or_at_other (find_service_desc s name) s.service_count))

pub found_kept :
    (s : Registry) (d : ServiceDesc) (name : ℕ) {i : ℕ}
    → find_service_desc s name ≡ some i
    → (append s d).services i ≡ s.services i
found_kept s d name {i} e =
    let p =
      find_from-below s.service_count 0 s.services name {j = i} (unfold find_service_desc in e) in
    append-at s d i (omega (arith, p))

get_service-found :
    (s : Registry) (name : ℕ) {i : ℕ}
    → find_service_desc s name ≡ some i
    → get_service s name ≡ (s.services i).thread
unfolding get_service
get_service-found s name e = rw (get_service, e) refl

get_service-absent :
    (s : Registry) (name : ℕ) → find_service_desc s name ≡ none → get_service s name ≡ nilthread
unfolding get_service
get_service-absent s name e = rw (get_service, e) refl

pub get-append :
    (s : Registry) (d : ServiceDesc) (name : ℕ)
    → get_service (append s d) name ≡ (
        if is_known s name
        then get_service s name
        else if d.name == name
        then d.thread
        else nilthread)
get-append s d name = elim (Option-cases (find_service_desc s name)) [
  | inr (i, e) ↦
      let p =
        find_from-below s.service_count 0 s.services name {j = i} (unfold find_service_desc in e) in
      let found = get_service-found (append s d) name {i = i} (rw (find-append s d name, e) refl) in
      rw (found, append-at s d i (omega (arith, p)), e) (sym (get_service-found s name {i = i} e))
  | inl e ↦ elim (Bool-cases (d.name == name)) [
    | inl hit ↦
        let found =
          get_service-found (append s d) name {i = s.service_count}
            (rw (find-append s d name, e, hit) refl) in
        rw (e, hit, found, append-last s d) refl
    | inr miss ↦
        rw (e, miss)
          (get_service-absent (append s d) name (rw (find-append s d name, e, miss) refl))
  ]
]

get-unchanged :
    (s : Registry) (name : ℕ)
    → get_service s name ≡ (if is_known s name then get_service s name else nilthread)
get-unchanged s name = elim (Option-cases (find_service_desc s name)) [
  | inl e ↦ rw e (get_service-absent s name e)
  | inr (i, e) ↦ rw e refl
]

-- After a registration, `get_service` answers for a name that was registered before as it did then;
-- for the new name, if there was room, with the new thread; and else with the nil thread.
pub get-register_service :
    (s : Registry) (tid new name : ℕ)
    → get_service (register_service s tid new) name ≡ (
        if is_known s name
        then get_service s name
        else if ltb s.service_count max_service_count && new == name
        then tid
        else nilthread)
unfolding register_service
get-register_service s tid new name = elim (Bool-cases (leb max_service_count s.service_count)) [
  | inl full ↦
      let no_place : ltb s.service_count max_service_count ≡ false = ground arith in
      rw (full, no_place) (get-unchanged s name)
  | inr room ↦
      let open_place : ltb s.service_count max_service_count ≡ true = ground arith in
      rw (room, open_place) (get-append s (record { thread = tid; name = new }) name)
]
