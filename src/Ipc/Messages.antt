-- ===== src/Ipc/Messages.antt =====
-- Messages of kern/syscall/ipc.c from the thread 1 to the thread 0, whose UTCBs start at the words
-- 512 and 256.
use bradyp_os.Base.{
  ℕ, ◌+◌, ◌≡◌, refl, inl, inr, Bool, true, none, some, Option, ◌==◌, if◌then◌else◌, arith,
}
use bradyp_os.Base.Array.{Array}
use bradyp_os.Kernel.{Kernel}
use bradyp_os.Kernel.Sample.{serving}
use bradyp_os.Memory.Utcb
use bradyp_os.Memory.Tag
use bradyp_os.Memory.{load_utcb}
use bradyp_os.Ipc.Transfer.{Copied, up_to, copy_items, copy_mrs, copy_payload, item_rounds}
use bradyp_os.Ipc.Delivery.{AreApart, IsDelivered, copy_payload-IsDelivered}
use bradyp_os.Ipc.Overflow.{copy_payload-overwrites}
use bradyp_os.Ipc.Rounds.{copy_payload-stuck, copy_items-enough}

-- The sender's message has the tag `tag` and the words `word` behind it.
abbrev message : (tag word : ℕ) → Array
message tag word x = if x == 523 then tag else word

abbrev sending : (tag word : ℕ) → Kernel
sending tag word = serving 5 (message tag word)

sending-AreApart : (tag word : ℕ) → AreApart (sending tag word) 1 0
sending-AreApart tag word = record {
  utcbs = inr (omega arith);
  stack = inl (omega arith);
  other_stack = inl (omega arith);
}

copy_payload-IsDelivered_example :
    (k' : Kernel) × (copy_payload (sending 2 7) 1 0 ≡ some (0, k'))
    × IsDelivered (sending 2 7) 1 0 (Tag.untyped_words (load_utcb (sending 2 7) 1 (Utcb.mr 0))) k'
copy_payload-IsDelivered_example =
    copy_payload-IsDelivered (sending 2 7) 1 0 (sending-AreApart 2 7)
      (unfold load_utcb in omega arith) (unfold load_utcb in refl)

copy_payload-overwrites_example :
    (k' : Kernel) × (copy_payload (sending 16 7) 1 0 ≡ some (0, k'))
    × (load_utcb k' 0 (Utcb.br 0) ≡ load_utcb (sending 16 7) 1 (Utcb.br 0))
copy_payload-overwrites_example =
    copy_payload-overwrites (sending 16 7) 1 0 (sending-AreApart 16 7) (unfold load_utcb in refl)
      (unfold load_utcb in refl)

-- One typed item, of the kind 5.
copy_payload-stuck_example :
    ((fuel : ℕ) (accepts : Bool)
      → copy_items fuel
          (copy_mrs
            (sending 64 10)
            1
            1
            (Tag.untyped_words (load_utcb (sending 64 10) 1 (Utcb.mr 0)))
            0
            1)
          accepts
          1
          0
          (Tag.untyped_words (load_utcb (sending 64 10) 1 (Utcb.mr 0))
            + Tag.typed_words (load_utcb (sending 64 10) 1 (Utcb.mr 0))
            + 1)
          (Tag.untyped_words (load_utcb (sending 64 10) 1 (Utcb.mr 0)) + 1)
          1
          (Tag.untyped_words (load_utcb (sending 64 10) 1 (Utcb.mr 0)) + 1)
        ≡ none)
    × (copy_payload (sending 64 10) 1 0 ≡ none)
unfolding load_utcb
copy_payload-stuck_example =
    copy_payload-stuck (sending 64 10) 1 0 (sending-AreApart 64 10) (omega arith) (omega arith)
      (omega arith) (omega arith)

-- A map item.
abbrev mapped : Option (Copied × Kernel)
mapped = copy_items 2 (sending 128 8) true 1 0 3 1 1 1

abbrev mapped_state : Copied × Kernel
mapped_state = elim mapped [ none ↦ (up_to 0, sending 128 8) | some r ↦ r ]

mapped_runs : copy_items 2 (sending 128 8) true 1 0 (0 + 2 + 1) (0 + 1) 1 1 ≡ some mapped_state
unfolding copy_items load_utcb
mapped_runs = refl

copy_items-enough_example :
    copy_items item_rounds (sending 128 8) true 1 0 (0 + 2 + 1) (0 + 1) 1 1 ≡ some mapped_state
copy_items-enough_example =
    copy_items-enough 2 (sending 128 8) true 1 0 0 2 1 1 mapped_state (omega arith) mapped_runs
