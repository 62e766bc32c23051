-- ===== src/Ipc/Transfer.antt =====
-- kern/syscall/ipc.c: `copy_payload`. `none` means that the kernel panics, or that the loop over the
-- typed items does not end within the fuel.
use bradyp_os.Base.{
  ℕ, zero, suc, ◌+◌, ◌-◌, ◌%◌, Bool, not, ◌||◌, Option, none, some, ltb, ◌==◌, if◌then◌else◌, ◌>>=◌,
}
use bradyp_os.Kernel.{Kernel}
use bradyp_os.Memory.Utcb
use bradyp_os.Memory.Tag
use bradyp_os.Memory.{
  load_utcb, save_utcb, save_stack, copy_words, copy_bytes, word_at, item_type, item_compound,
  item_length, map_item, string_item, stack_r0, ipc_error_message_overflow,
}
use bradyp_os.Ipc.{same_space}

-- The memory after `copy_words` between message registers `i` of two threads.
unfoldable pub copy_mrs : Kernel → (to_mr from_mr n to from : ℕ) → Kernel
unfolding copy_words
copy_mrs k to_mr from_mr n to from = record k {
  memory =
      copy_words n (word_at (k.tcb_store to).utcb (Utcb.mr to_mr))
        (word_at (k.tcb_store from).utcb (Utcb.mr from_mr)) k.memory;
}

-- What the loop over the typed items gives: the offset behind the last item that was received, or an
-- error code.
pub data Copied : Type 0 where
  up_to : (to_mr_offset : ℕ) → Copied
  failed : (error : ℕ) → Copied

-- A string item: its bytes go to the receiver's buffer, and the item, with the buffer's address, to
-- the receiver's message.
unfoldable pub copy_string : Kernel → (from to from_mr to_br to_mr : ℕ) → Kernel
unfolding load_utcb save_utcb copy_bytes
copy_string k from to from_mr to_br to_mr =
    let item = load_utcb k from (Utcb.mr from_mr) in
    let item_ptr = load_utcb k from (Utcb.mr (from_mr + 1)) in
    let to_ptr = load_utcb k to (Utcb.br (to_br + 1)) in
    let k1 = record k { memory = copy_bytes (item_length item) to_ptr item_ptr k.memory } in
    let item1 = load_utcb k1 from (Utcb.mr from_mr) in
    let item_ptr1 = load_utcb k1 from (Utcb.mr (from_mr + 1)) in
    let k2 = save_utcb k1 to (Utcb.mr to_mr) item1 in
    let k3 = save_utcb k2 to (Utcb.mr (to_mr + 1)) item_ptr1 in
    save_utcb k3 to (Utcb.mr (to_mr + 1)) (load_utcb k3 to (Utcb.br (to_br + 1)))

-- The checks of a string item, `copied` being what follows where they pass. Compound strings make the
-- kernel panic.
unfoldable pub check_string :
    Kernel
    → (accepts_strings : Bool) → (item to_item : ℕ) → (copied : Option (Copied × Kernel))
    → Option (Copied × Kernel)
check_string k accepts item to_item copied =
    if not accepts
    then some (failed ipc_error_message_overflow, k)
    else if item_compound item == 1 || item_compound to_item == 1
    then none
    else if ltb (item_length to_item) (item_length item)
    then some (failed ipc_error_message_overflow, k)
    else copied

-- The loop, from item `from_mr` on, below `last`. Items of the other types leave the offsets as they
-- are.
unfoldable pub copy_items :
    (fuel : ℕ)
    → Kernel
    → (accepts_strings : Bool) → (from to last from_mr to_br to_mr : ℕ) → Option (Copied × Kernel)
unfolding check_string copy_mrs copy_string load_utcb
copy_items zero k accepts from to last from_mr to_br to_mr = none
copy_items (suc fuel) k accepts from to last from_mr to_br to_mr =
    let item = load_utcb k from (Utcb.mr from_mr) in
    let to_item = load_utcb k to (Utcb.br to_br) in
    let mapped =
      copy_items fuel (copy_mrs k to_mr from_mr 2 to from) accepts from to last (from_mr + 2) to_br
        (to_mr + 2) in
    let copied =
      copy_items fuel (copy_string k from to from_mr to_br to_mr) accepts from to last (from_mr + 2)
        (to_br + 2) (to_mr + 2) in
    let ignored = copy_items fuel k accepts from to last from_mr to_br to_mr in
    if not (ltb from_mr last)
    then some (up_to to_mr, k)
    else if item_type item == map_item
    then mapped
    else if item_type item == string_item
    then check_string k accepts item to_item copied
    else ignored

-- Each round that does not repeat for ever moves on by two of at most 16 words.
abbrev pub item_rounds : ℕ
item_rounds = 9

-- `to->utcb->sender`, the receiver's tag, and the sender's identifier as the result of its call.
unfoldable pub finish_message : Kernel → (from to tag to_mr : ℕ) → Kernel
unfolding save_utcb save_stack
finish_message k from to tag to_mr =
    let f = k.tcb_store from in
    let t = k.tcb_store to in
    let k1 = save_utcb k to Utcb.sender f.global_id in
    let k2 =
      save_utcb k1 to (Utcb.mr 0) (
        Tag.make (Tag.untyped_words tag) (to_mr - (Tag.untyped_words tag + 1)) 0 (Tag.label tag)) in
    save_stack k2 to stack_r0 (if same_space t.space f.space then f.local_id else f.global_id)

unfoldable pub finished : (from to tag : ℕ) → Copied × Kernel → Option (ℕ × Kernel)
unfolding finish_message
finished from to tag (up_to to_mr, k) = some (0, finish_message k from to tag to_mr)
finished from to tag (failed error, k) = some (error, k)

-- The result is the error code, 0 for none.
unfoldable pub copy_payload : Kernel → (from to : ℕ) → Option (ℕ × Kernel)
unfolding load_utcb copy_mrs copy_items finished
copy_payload k from to =
    let tag = load_utcb k from (Utcb.mr 0) in
    let u = Tag.untyped_words tag in
    let k1 = copy_mrs k 1 1 u to from in
    let accepts = load_utcb k1 to (Utcb.br 0) % 2 == 1 in
    let copied =
      copy_items item_rounds k1 accepts from to (u + Tag.typed_words tag + 1) (u + 1) 1 (u + 1)
      >>= finished from to tag in
    if ltb Utcb.mr_count (u + Tag.typed_words tag)
    then some (ipc_error_message_overflow, k)
    else copied
