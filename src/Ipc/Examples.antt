-- ===== src/Ipc/Examples.antt =====
-- The searches of kern/syscall/ipc.c with two threads in one address space: the first calls, and the
-- second waits for a message from any thread.
use bradyp_os.Base.{ℕ, zero, suc, ◌≡◌, refl, true, some, [], ◌∷◌, arith}
use bradyp_os.Ids.{anythread, thread_no, is_local_id}
use bradyp_os.Kernel.{ThreadState, Tcb, Kernel}
use bradyp_os.Kernel.Sample.{sample, block}
use bradyp_os.Thread.Find.{IsSorted}
use bradyp_os.Ipc.{
  nonexistent, found, find_ipc_partner, find_ipc_partner_local, first_thread, is_named,
  is_viable_ipc_partner,
}
use bradyp_os.Ipc.Partner.{Answers, find_ipc_partner-Answers, find_ipc_partner-ready}
use bradyp_os.Ipc.Reach.{HasThreads, find_ipc_partner_local-skips}

abbrev meeting_blocks : ℕ → Tcb
meeting_blocks zero = record (block 0x100001 ThreadState.runnable) {
  space = some 0;
  local_id = 0x200;
  next_sibling = some 1;
}
meeting_blocks (suc zero) = record (block 0x108001 ThreadState.recv_blocked) {
  space = some 0;
  local_id = 0x8000;
  ipc_from = anythread;
}
meeting_blocks (suc (suc n)) = block 0x104001 ThreadState.inactive

abbrev meeting : Kernel
meeting = record sample {
  tcb_store = meeting_blocks;
  as_pool = λ i. record { ref_count = 2; utcb_page = 0; first_thread = some 0 };
}

meeting-IsSorted : IsSorted meeting
unfolding thread_no
meeting-IsSorted zero zero p q = absurd (omega arith)
meeting-IsSorted zero (suc zero) p q = omega arith
meeting-IsSorted i (suc (suc j)) p q = absurd (omega arith)
meeting-IsSorted (suc i) (suc zero) p q = absurd (omega arith)
meeting-IsSorted (suc i) zero p q = absurd (omega arith)

meeting-HasThreads : HasThreads meeting 0 (0 ∷ 1 ∷ [])
unfolding first_thread
meeting-HasThreads = record {
  first = some 0;
  starts = refl;
  chain = (refl, (refl, refl));
  small = omega arith;
}

meeting_found : find_ipc_partner meeting 0 0x108001 true ≡ some (found 1)
unfolding find_ipc_partner thread_no
meeting_found = refl

find_ipc_partner-Answers_example : Answers meeting 0 true (found 1)
find_ipc_partner-Answers_example =
    find_ipc_partner-Answers meeting 0 true 0x108001 {r = found 1} meeting_found

find_ipc_partner-ready_example : find_ipc_partner meeting 0 0x108001 true ≡ some (found 1)
unfolding is_local_id thread_no is_viable_ipc_partner
find_ipc_partner-ready_example =
    find_ipc_partner-ready meeting 0 true 0x108001 1 refl refl refl meeting-IsSorted refl
      (omega arith) (omega arith) refl refl

-- The second thread waits for a message, and a sender that names it by its local identifier does not
-- find it.
find_ipc_partner_local-skips_example :
    find_ipc_partner_local meeting 0 0x8000 true ≡ some nonexistent
unfolding is_named
find_ipc_partner_local-skips_example =
    find_ipc_partner_local-skips meeting 0 true 0x8000 (0 ∷ 1 ∷ []) meeting-HasThreads (refl, tt)
