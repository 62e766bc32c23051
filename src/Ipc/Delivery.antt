-- ===== src/Ipc/Delivery.antt =====
-- What `copy_payload` of kern/syscall/ipc.c does with a message of untyped words.
use bradyp_os.Base.{
  ℕ, suc, ◌+◌, ◌-◌, ◌/◌, ◌%◌, ◌≤◌, ◌<◌, ◌≡◌, ◌≢◌, ◌⊎◌, refl, Bool, false, some, ltb, ◌==◌,
  if◌then◌else◌, arith, ◌∙◌, ap,
}
use bradyp_os.Kernel.{Kernel}
use bradyp_os.Memory.Utcb
use bradyp_os.Memory.Tag
use bradyp_os.Memory.{load_utcb, load_stack, stack_r0}
use bradyp_os.Ipc.Written.{
  Apart, written, written-word, written-header, written-sender, written-result, written-elsewhere,
}
use bradyp_os.Ipc.{same_space}
use bradyp_os.Ipc.Transfer.{up_to, copy_mrs, copy_items, finish_message, finished, copy_payload}

-- The first words of a thread's UTCB and stack.
abbrev pub utcb_word : Kernel → ℕ → ℕ
utcb_word k t = (k.tcb_store t).utcb / 4

abbrev pub stack_word : Kernel → ℕ → ℕ
stack_word k t = (k.tcb_store t).ctx.sp / 4

-- The UTCBs of both threads, 35 words, and the receiver's stack are different memory.
pub record AreApart (k : Kernel) (from to : ℕ) : Type 0 where
  pub utcbs : Apart (utcb_word k from) 35 (utcb_word k to) 35
  pub stack : Apart (stack_word k to) 8 (utcb_word k to) 35
  pub other_stack : Apart (stack_word k to) 8 (utcb_word k from) 35

copy_items_end :
    (fuel : ℕ) (k : Kernel) (accepts : Bool) (from to last from_mr to_br to_mr : ℕ)
    → ltb from_mr last ≡ false
    → copy_items (suc fuel) k accepts from to last from_mr to_br to_mr ≡ some (up_to to_mr, k)
unfolding copy_items
copy_items_end fuel k accepts from to last from_mr to_br to_mr past = rw (copy_items, past) refl

module _ (k : Kernel) (from to : ℕ) where
  unfoldable pub tag : ℕ
  unfolding load_utcb
  tag = load_utcb k from (Utcb.mr 0)

  -- The state after an untyped message.
  unfoldable pub delivered : Kernel
  unfolding finish_message copy_mrs tag
  delivered =
      finish_message (copy_mrs k 1 1 (Tag.untyped_words tag) to from) from to tag
        (Tag.untyped_words tag + 1)

  pub copy_payload_untyped :
      Tag.typed_words tag ≡ 0
      → Tag.untyped_words tag ≤ Utcb.mr_count
      → copy_payload k from to ≡ some (0, delivered)
  unfolding copy_payload delivered finished
  copy_payload_untyped none_typed short =
      let fits : ltb Utcb.mr_count (Tag.untyped_words tag + Tag.typed_words tag) ≡ false =
        ground arith in
      let ends : ltb (Tag.untyped_words tag + 1) (Tag.untyped_words tag + Tag.typed_words tag + 1)
          ≡ false =
        ground arith in
      unfold tag in
      rw fits (
        rw
          (copy_items_end 8 (copy_mrs k 1 1 (Tag.untyped_words tag) to from)
            (load_utcb (copy_mrs k 1 1 (Tag.untyped_words tag) to from) to (Utcb.br 0) % 2 == 1)
            from to (Tag.untyped_words tag + Tag.typed_words tag + 1) (Tag.untyped_words tag + 1) 1
            (Tag.untyped_words tag + 1) ends)
          refl)

-- The message has arrived: `u` words, the tag without flags and typed items, the sender, and the
-- result of the receiver's call; nothing else has changed.
pub record IsDelivered (k : Kernel) (from to u : ℕ) (k' : Kernel) : Type 0 where
  pub words : (i : ℕ) → 1 ≤ i → i ≤ u → load_utcb k' to (Utcb.mr i) ≡ load_utcb k from (Utcb.mr i)
  pub header :
      load_utcb k' to (Utcb.mr 0) ≡ Tag.make u 0 0 (Tag.label (load_utcb k from (Utcb.mr 0)))
  pub sender : load_utcb k' to Utcb.sender ≡ (k.tcb_store from).global_id
  pub result : load_stack k' to stack_r0 ≡ (
      if same_space (k.tcb_store to).space (k.tcb_store from).space
      then (k.tcb_store from).local_id
      else (k.tcb_store from).global_id)
  pub elsewhere :
      (a : ℕ)
      → a ≢ stack_word k to
      → a ≢ utcb_word k to + Utcb.sender
      → (a < utcb_word k to + Utcb.mr 0) ⊎ (utcb_word k to + Utcb.mr u < a)
      → k'.memory a ≡ k.memory a
  pub threads : k'.tcb_store ≡ k.tcb_store

minus_self : (n : ℕ) → n - n ≡ 0
minus_self n = omega arith

module _ (k : Kernel) (from to : ℕ) (a : AreApart k from to)
    (short : Tag.untyped_words (load_utcb k from (Utcb.mr 0)) < Utcb.mr_count) where
  delivered-IsDelivered :
      IsDelivered k from to (Tag.untyped_words (load_utcb k from (Utcb.mr 0))) (delivered k from to)
  unfolding delivered written tag
  delivered-IsDelivered =
      let u = Tag.untyped_words (load_utcb k from (Utcb.mr 0)) in
      record {
        words = λ i p q.
            unfold load_utcb in
            written-word k.memory (utcb_word k to) (utcb_word k from) (stack_word k to) u _ _ _ i
              a.utcbs a.stack (omega arith) p q;
        header =
            unfold load_utcb in
            written-header k.memory (utcb_word k to) (utcb_word k from) (stack_word k to) u _ _ _
              a.stack
            ∙ ap (λ t. Tag.make u t 0 (Tag.label (load_utcb k from (Utcb.mr 0))))
                (minus_self (u + 1));
        sender =
            unfold load_utcb in
            written-sender k.memory (utcb_word k to) (utcb_word k from) (stack_word k to) u _ _ _
              a.stack;
        result =
            unfold load_utcb load_stack in
            written-result k.memory (utcb_word k to) (utcb_word k from) (stack_word k to) u _ _ _;
        elsewhere = λ x p q r.
            unfold load_utcb in
            written-elsewhere k.memory (utcb_word k to) (utcb_word k from) (stack_word k to) u _ _ _
              x p q r;
        threads = refl;
      }

-- Where the UTCBs of both threads and the stack of the receiver are apart, a message of fewer than 16
-- untyped words and no typed items arrives: `copy_payload` returns no error, and delivers it.
pub copy_payload-IsDelivered :
    (k : Kernel) (from to : ℕ)
    → AreApart k from to
    → Tag.untyped_words (load_utcb k from (Utcb.mr 0)) < Utcb.mr_count
    → Tag.typed_words (load_utcb k from (Utcb.mr 0)) ≡ 0
    → (k' : Kernel) × (copy_payload k from to ≡ some (0, k'))
      × IsDelivered k from to (Tag.untyped_words (load_utcb k from (Utcb.mr 0))) k'
unfolding tag
copy_payload-IsDelivered k from to a short none_typed = (
  delivered k from to,
  copy_payload_untyped k from to none_typed (omega arith),
  delivered-IsDelivered k from to a short,
)
