-- ===== src/Systick/Examples.antt =====
-- The timer's interrupt of kern/kalarm.c with the end of a pause that is due and the scheduler's event
-- that is not.
use bradyp_os.Base.{
  ℕ, zero, suc, ◌+◌, ◌%◌, ◌^◌, ◌≡◌, refl, inr, none, some, [], ◌∷◌, ◌==◌, if◌then◌else◌, arith,
}
use bradyp_os.Ids.{thread_no}
use bradyp_os.Alarm.{Event}
use bradyp_os.Alarm.Chain.{IsQueue}
use bradyp_os.Kernel.{ThreadState, Tcb, Kernel, kalarm_reschedule, kalarm_unpause}
use bradyp_os.Kernel.Sample.{serving, block, zeros}
use bradyp_os.Thread.{find_thread_by_global_id}
use bradyp_os.Systick.{isr_systick}
use bradyp_os.Systick.Due.{isr_systick-drains}

abbrev timed : ℕ → Event
timed e =
    if e == 1
    then record { when = 4; kind = kalarm_unpause; payload = 0x108001; prev = none; next = some 16 }
    else record { when = 9; kind = kalarm_reschedule; payload = 0; prev = none; next = none }

abbrev paused_block : ℕ → Tcb
paused_block zero = block 0x100001 ThreadState.runnable
paused_block (suc zero) = block 0x108001 ThreadState.paused
paused_block (suc (suc n)) = block 0x104001 ThreadState.inactive

abbrev pausing : Kernel
pausing = record (serving 0 zeros) {
  tcb_store = paused_block;
  alarm = record { next_event = some 1; current_time = 3; events = timed };
}

paused_found : find_thread_by_global_id pausing 0x108001 ≡ some 1
unfolding find_thread_by_global_id thread_no
paused_found = refl

isr_systick-drains_example :
    (k' : Kernel) × (isr_systick pausing ≡ some k')
    × IsQueue k'.alarm (16 ∷ [])
    × (k'.alarm.current_time ≡ (3 + 1) % 2 ^ 32)
isr_systick-drains_example =
    isr_systick-drains pausing (1 ∷ []) (16 ∷ []) (refl, (refl, refl)) (refl, (refl, tt))
      (omega arith, inr (inr (refl, (1, paused_found))), tt) (omega arith) (omega arith)
