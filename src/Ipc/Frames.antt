-- ===== src/Ipc/Frames.antt =====
-- Copying a message in kern/syscall/ipc.c changes memory only.
use bradyp_os.Base.{
  ℕ, zero, suc, ◌+◌, ◌%◌, ◌≡◌, ◌⊎◌, inl, inr, Bool, Option, some, ltb, ◌==◌, arith, Bool-cases,
  bind_inv, some_inj,
}
use bradyp_os.Kernel.{Kernel}
use bradyp_os.Memory.{load_utcb, item_type, map_item, string_item}
use bradyp_os.Memory.Utcb
use bradyp_os.Memory.Tag
use bradyp_os.Scheduler.Frame.{SameFrame, SameFrame-refl, SameFrame-trans, memory-SameFrame}
use bradyp_os.Ipc.Transfer.{
  Copied, up_to, failed, copy_mrs, copy_string, copy_items, check_string, finish_message, finished,
  item_rounds, copy_payload,
}

copy_mrs-SameFrame :
    (k : Kernel) (to_mr from_mr n to from : ℕ) → SameFrame k (copy_mrs k to_mr from_mr n to from)
unfolding copy_mrs
copy_mrs-SameFrame k to_mr from_mr n to from = memory-SameFrame k _

copy_string-SameFrame :
    (k : Kernel) (from to from_mr to_br to_mr : ℕ)
    → SameFrame k (copy_string k from to from_mr to_br to_mr)
unfolding copy_string
copy_string-SameFrame k from to from_mr to_br to_mr = memory-SameFrame k _

check_string_cases :
    (k : Kernel) (accepts : Bool) (item to_item : ℕ) (copied : Option (Copied × Kernel))
    {r : Copied × Kernel}
    → check_string k accepts item to_item copied ≡ some r
    → (r.1 ≡ k) ⊎ (copied ≡ some r)
unfolding check_string
check_string_cases k accepts item to_item copied {r} h = ground arith

copy_items-SameFrame :
    (fuel : ℕ) (k : Kernel) (accepts : Bool) (from to last from_mr to_br to_mr : ℕ)
    {r : Copied × Kernel}
    → copy_items fuel k accepts from to last from_mr to_br to_mr ≡ some r
    → SameFrame k r.1
unfolding copy_items
copy_items-SameFrame zero k accepts from to last from_mr to_br to_mr h = absurd (cc)
copy_items-SameFrame (suc fuel) k accepts from to last from_mr to_br to_mr {r} h =
    elim (Bool-cases (ltb from_mr last)) [
      | inr past ↦ rw (← some_inj (rw past at h)) (SameFrame-refl k)
      | inl more ↦
          let item = load_utcb k from (Utcb.mr from_mr) in
          elim (Bool-cases (item_type item == map_item)) [
            | inl is_map ↦
                let k1 = copy_mrs k to_mr from_mr 2 to from in
                SameFrame-trans (copy_mrs-SameFrame k to_mr from_mr 2 to from) (
                  copy_items-SameFrame fuel k1 accepts from to last (from_mr + 2) to_br (to_mr + 2)
                    {r = r} (rw (more, is_map) at h))
            | inr no_map ↦ elim (Bool-cases (item_type item == string_item)) [
              | inr stuck ↦
                  copy_items-SameFrame fuel k accepts from to last from_mr to_br to_mr {r = r}
                    (rw (more, no_map, stuck) at h)
              | inl is_string ↦
                  let k1 = copy_string k from to from_mr to_br to_mr in
                  elim (check_string_cases k accepts item (load_utcb k to (Utcb.br to_br)) _ {r = r}
                    (rw (more, no_map, is_string) at h)) [
                      | inl failed_here ↦ rw failed_here (SameFrame-refl k)
                      | inr copied ↦
                          SameFrame-trans (copy_string-SameFrame k from to from_mr to_br to_mr) (
                            copy_items-SameFrame fuel k1 accepts from to last (from_mr + 2)
                              (to_br + 2) (to_mr + 2) {r = r} copied)
                    ]
            ]
          ]
    ]

finished-SameFrame :
    (from to tag : ℕ) (c : Copied) (k : Kernel) {r : ℕ × Kernel}
    → finished from to tag (c, k) ≡ some r
    → SameFrame k r.1
unfolding finished finish_message
finished-SameFrame from to tag (up_to to_mr) k h = rw (← some_inj h) (memory-SameFrame k _)
finished-SameFrame from to tag (failed code) k h = rw (← some_inj h) (SameFrame-refl k)

pub copy_payload-SameFrame :
    (k : Kernel) (from to : ℕ) {r : ℕ × Kernel} → copy_payload k from to ≡ some r → SameFrame k r.1
unfolding copy_payload
copy_payload-SameFrame k from to {r} h =
    let tag = load_utcb k from (Utcb.mr 0) in
    let u = Tag.untyped_words tag in
    let k1 = copy_mrs k 1 1 u to from in
    let accepts = load_utcb k1 to (Utcb.br 0) % 2 == 1 in
    elim (Bool-cases (ltb Utcb.mr_count (u + Tag.typed_words tag))) [
      | inl too_long ↦ rw (← some_inj (rw too_long at h)) (SameFrame-refl k)
      | inr fits ↦
          let (c, e, f) =
            bind_inv
              (copy_items item_rounds k1 accepts from to (u + Tag.typed_words tag + 1) (u + 1) 1
                (u + 1))
              (finished from to tag) {b = r} (rw fits at h) in
          SameFrame-trans (copy_mrs-SameFrame k 1 1 u to from) (
            SameFrame-trans
              (copy_items-SameFrame item_rounds k1 accepts from to (u + Tag.typed_words tag + 1)
                (u + 1) 1 (u + 1) {r = c} e)
              (finished-SameFrame from to tag c.0 c.1 {r = r} f))
    ]
