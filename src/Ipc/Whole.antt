-- ===== src/Ipc/Whole.antt =====
-- A whole IPC call of kern/syscall/ipc.c keeps the scheduler's invariant.
use mathlib.Core.Option
use bradyp_os.Base.{ℕ, ◌≡◌, Option, some}
use bradyp_os.Kernel.{Kernel}
use bradyp_os.Scheduler.Frame.{IsServing, IsOther, Continues}

-- A call that keeps the invariant for every thread that does not run.
abbrev KeepsServing : (Kernel → ℕ → Option Kernel) → Type 0
KeepsServing call =
    (k : Kernel) (t : ℕ) (k' : Kernel)
    → IsServing k
    → IsOther k t
    → call k t ≡ some k'
    → Continues k k'
