-- ===== src/Ipc/Rounds.antt =====
-- The rounds of the loop over the typed items in `copy_payload` of kern/syscall/ipc.c.
use bradyp_os.Base.{
  ℕ, zero, suc, ◌+◌, ◌*◌, ◌≤◌, ◌<◌, ◌≡◌, ◌≢◌, refl, inl, inr, Bool, true, false, not, ◌||◌, Option,
  none, some, ltb, ◌==◌, arith, Bool-cases, test_of_ne,
}
use bradyp_os.Memory.Copies.{copy_words-outside}
use bradyp_os.Kernel.{Kernel}
use bradyp_os.Memory.Utcb
use bradyp_os.Memory.Tag
use bradyp_os.Memory.{load_utcb, item_type, item_compound, item_length, map_item, string_item}
use bradyp_os.Ipc.Transfer.{
  Copied, check_string, copy_string, copy_items, copy_mrs, copy_payload, item_rounds,
}
use bradyp_os.Ipc.Delivery.{AreApart, utcb_word}

-- An item that is neither a map item nor a string item: the loop does not end, on any fuel.
copy_items-stuck :
    (fuel : ℕ) (k : Kernel) (accepts : Bool) (from to last from_mr to_br to_mr : ℕ)
    → from_mr < last
    → item_type (load_utcb k from (Utcb.mr from_mr)) ≢ map_item
    → item_type (load_utcb k from (Utcb.mr from_mr)) ≢ string_item
    → copy_items fuel k accepts from to last from_mr to_br to_mr ≡ none
unfolding copy_items
copy_items-stuck zero k accepts from to last from_mr to_br to_mr more a b = refl
copy_items-stuck (suc fuel) k accepts from to last from_mr to_br to_mr more a b =
    let going : ltb from_mr last ≡ true = ground arith in
    rw
      (
        copy_items,
        going,
        test_of_ne (item_type (load_utcb k from (Utcb.mr from_mr))) map_item a,
        test_of_ne (item_type (load_utcb k from (Utcb.mr from_mr))) string_item b,
      )
      (copy_items-stuck fuel k accepts from to last from_mr to_br to_mr more a b)

unmoved :
    (k : Kernel) (from to n i : ℕ)
    → AreApart k from to
    → n ≤ 15
    → i ≤ 16
    → load_utcb (copy_mrs k 1 1 n to from) from (Utcb.mr i) ≡ load_utcb k from (Utcb.mr i)
unfolding copy_mrs load_utcb
unmoved k from to n i a p q =
    copy_words-outside n (utcb_word k to + 12) (utcb_word k from + 12) k.memory
      (utcb_word k from + (11 + i)) (ground (arith, a.utcbs))

-- A message whose first typed item is neither a map item nor a string item, which fits into the
-- registers and whose UTCBs and stack are apart: the loop over the typed items does not end, however
-- many rounds it is given, and so neither does `copy_payload`.
pub copy_payload-stuck :
    (k : Kernel) (from to : ℕ)
    → AreApart k from to
    → Tag.untyped_words (load_utcb k from (Utcb.mr 0))
        + Tag.typed_words (load_utcb k from (Utcb.mr 0))
      ≤ Utcb.mr_count
    → 0 < Tag.typed_words (load_utcb k from (Utcb.mr 0))
    → item_type (load_utcb k from (Utcb.mr (Tag.untyped_words (load_utcb k from (Utcb.mr 0)) + 1)))
      ≢ map_item
    → item_type (load_utcb k from (Utcb.mr (Tag.untyped_words (load_utcb k from (Utcb.mr 0)) + 1)))
      ≢ string_item
    → ((fuel : ℕ) (accepts : Bool)
        → copy_items fuel
            (copy_mrs k 1 1 (Tag.untyped_words (load_utcb k from (Utcb.mr 0))) to from)
            accepts
            from
            to
            (Tag.untyped_words (load_utcb k from (Utcb.mr 0))
              + Tag.typed_words (load_utcb k from (Utcb.mr 0))
              + 1)
            (Tag.untyped_words (load_utcb k from (Utcb.mr 0)) + 1)
            1
            (Tag.untyped_words (load_utcb k from (Utcb.mr 0)) + 1)
          ≡ none)
      × (copy_payload k from to ≡ none)
unfolding copy_payload
copy_payload-stuck k from to a fits typed no_map no_string =
    let tag = load_utcb k from (Utcb.mr 0) in
    let u = Tag.untyped_words tag in
    let same = unmoved k from to u (u + 1) a (omega arith) (omega arith) in
    let stuck : (fuel : ℕ) (accepts : Bool)
        → copy_items fuel (copy_mrs k 1 1 u to from) accepts from to (u + Tag.typed_words tag + 1)
            (u + 1) 1 (u + 1)
          ≡ none =
      λ fuel accepts.
        copy_items-stuck fuel (copy_mrs k 1 1 u to from) accepts from to
          (u + Tag.typed_words tag + 1) (u + 1) 1 (u + 1) (omega arith) (λ e. no_map (rw same at e))
          (λ e. no_string (rw same at e)) in
    let ok : ltb Utcb.mr_count (u + Tag.typed_words tag) ≡ false = ground arith in
    (stuck, rw (ok, stuck item_rounds _) refl)

check_string_same :
    (k : Kernel) (accepts : Bool) (item to_item : ℕ) {c d : Option (Copied × Kernel)}
    → {r : Copied × Kernel} → (c ≡ some r → d ≡ some r)
    → check_string k accepts item to_item c ≡ some r
    → check_string k accepts item to_item d ≡ some r
unfolding check_string
check_string_same k accepts item to_item {c} {d} same h = elim (Bool-cases (not accepts)) [
  | inl a ↦ rw (check_string, a) (rw (check_string, a) at h)
  | inr a ↦ elim (Bool-cases (item_compound item == 1 || item_compound to_item == 1)) [
    | inl b ↦ (let g = rw (check_string, a, b) at h in cc)
    | inr b ↦ elim (Bool-cases (ltb (item_length to_item) (item_length item))) [
      | inl l ↦ rw (check_string, a, b, l) (rw (check_string, a, b, l) at h)
      | inr l ↦ rw (check_string, a, b, l) (same (rw (check_string, a, b, l) at h))
    ]
  ]
]

-- Where the loop ends on some number of rounds, it ends with the same result on `m + 1` rounds, if
-- there are at most `2 * m` words.
copy_items_rounds :
    (n m : ℕ) (k : Kernel) (accepts : Bool) (from to last from_mr to_br to_mr : ℕ)
    → {r : Copied × Kernel} → last ≤ from_mr + 2 * m
    → copy_items n k accepts from to last from_mr to_br to_mr ≡ some r
    → copy_items (suc m) k accepts from to last from_mr to_br to_mr ≡ some r
unfolding copy_items
copy_items_rounds zero m k accepts from to last from_mr to_br to_mr b h = absurd (cc)
copy_items_rounds (suc n) zero k accepts from to last from_mr to_br to_mr {r} b h =
    let past : ltb from_mr last ≡ false = ground arith in
    rw (copy_items, past) (rw (copy_items, past) at h)
copy_items_rounds (suc n) (suc m) k accepts from to last from_mr to_br to_mr {r} b h =
    let item = load_utcb k from (Utcb.mr from_mr) in
    elim (Bool-cases (ltb from_mr last)) [
      | inr past ↦ rw (copy_items, past) (rw (copy_items, past) at h)
      | inl going ↦ elim (Bool-cases (item_type item == map_item)) [
        | inl map ↦
            rw (copy_items, going, map)
              (copy_items_rounds n m (copy_mrs k to_mr from_mr 2 to from) accepts from to last
                (from_mr + 2) to_br (to_mr + 2) {r = r} (omega arith)
                (rw (copy_items, going, map) at h))
        | inr no_map ↦ elim (Bool-cases (item_type item == string_item)) [
          | inl string ↦
              rw (copy_items, going, no_map, string)
                (check_string_same k accepts item (load_utcb k to (Utcb.br to_br)) {r = r}
                  (λ g.
                    copy_items_rounds n m (copy_string k from to from_mr to_br to_mr) accepts from
                      to last (from_mr + 2) (to_br + 2) (to_mr + 2) {r = r} (omega arith) g)
                  (rw (copy_items, going, no_map, string) at h))
          | inr no_string ↦
              let g = rw (copy_items, going, no_map, no_string) at h in
              let stuck =
                copy_items-stuck n k accepts from to last from_mr to_br to_mr (ground arith)
                  (λ e. ground arith) (λ e. ground arith) in
              absurd (cc)
        ]
      ]
    ]

-- Where the loop of `copy_payload` ends after any number of rounds on a message that fits into the
-- registers, it ends with the same result within the 9 rounds of the model.
pub copy_items-enough :
    (n : ℕ) (k : Kernel) (accepts : Bool) (from to u t to_br to_mr : ℕ) (r : Copied × Kernel)
    → u + t ≤ Utcb.mr_count
    → copy_items n k accepts from to (u + t + 1) (u + 1) to_br to_mr ≡ some r
    → copy_items item_rounds k accepts from to (u + t + 1) (u + 1) to_br to_mr ≡ some r
copy_items-enough n k accepts from to u t to_br to_mr r fits h =
    copy_items_rounds n 8 k accepts from to (u + t + 1) (u + 1) to_br to_mr {r = r} (omega arith) h
