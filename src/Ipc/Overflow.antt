-- ===== src/Ipc/Overflow.antt =====
-- `copy_payload` of kern/syscall/ipc.c and a message that is a word longer than the message registers.
use bradyp_os.Base.{ℕ, ◌≡◌, some, arith}
use bradyp_os.Kernel.{Kernel}
use bradyp_os.Memory.Utcb
use bradyp_os.Memory.Tag
use bradyp_os.Memory.{load_utcb}
use bradyp_os.Ipc.Transfer.{copy_payload}
use bradyp_os.Ipc.Written.{written, written-word}
use bradyp_os.Ipc.Delivery.{AreApart, utcb_word, stack_word, tag, delivered, copy_payload_untyped}

-- Where the UTCBs of both threads and the stack of the receiver are apart, a message of 16 untyped
-- words and no typed items is copied with no error, and overwrites the first buffer register of the
-- receiver, which stands behind its 16 message registers, with that of the sender.
pub copy_payload-overwrites :
    (k : Kernel) (from to : ℕ)
    → AreApart k from to
    → Tag.untyped_words (load_utcb k from (Utcb.mr 0)) ≡ 16
    → Tag.typed_words (load_utcb k from (Utcb.mr 0)) ≡ 0
    → (k' : Kernel) × (copy_payload k from to ≡ some (0, k'))
      × (load_utcb k' to (Utcb.br 0) ≡ load_utcb k from (Utcb.br 0))
unfolding delivered written tag
copy_payload-overwrites k from to a long none_typed = (
  delivered k from to,
  copy_payload_untyped k from to none_typed (omega arith),
  unfold load_utcb in
      written-word k.memory (utcb_word k to) (utcb_word k from) (stack_word k to)
        (Tag.untyped_words (load_utcb k from (Utcb.mr 0))) _ _ _ 16 a.utcbs a.stack (omega arith)
        (omega arith) (omega arith),
)
