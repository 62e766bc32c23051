-- ===== src/Ipc/Serving.antt =====
-- IPC of kern/syscall/ipc.c keeps the scheduler's invariant.
use bradyp_os.Base.{ℕ, ◌≡◌, refl, inl, inr, Bool, true, some, ◌==◌, Bool-cases, bind_inv, some_inj}
use bradyp_os.Kernel.{ThreadState, Kernel}
use bradyp_os.Memory.{load_utcb}
use bradyp_os.Memory.Utcb
use bradyp_os.Scheduler.Frame.{
  SameFrame, SameFrame-trans, memory-SameFrame, put_tcb-SameFrame, IsServing, IsOther, Continues,
  Continues-trans, Continues-refl, SameFrame-Continues, set_thread_state-Continues,
}
use bradyp_os.Ipc.{Search, nonexistent, notready, found, pager_msg, find_ipc_partner}
use bradyp_os.Alarm.{Alarm, register_kalarm_event}
use bradyp_os.Ids.{is_nil_thread}
use bradyp_os.Time.{is_time_equal, never, zero_time, is_point}
use bradyp_os.Ipc.Frames.{copy_payload-SameFrame}
use bradyp_os.Ipc.Transfer.{copy_payload}
use bradyp_os.Ipc.Waiting.{arm, set_thread_timeout}
use bradyp_os.Ipc.Phases.{
  Phase, pager_start_thread, set_ipc_error, set_error, send_found, is_start_message, send_to_active,
  block, send_to, ipc_send,
}
use bradyp_os.Ipc.Table.{IsPartner, find_ipc_partner-IsPartner}

pub set_error-SameFrame : (k : Kernel) (t p err : ℕ) → SameFrame k (set_error k t p err)
unfolding set_error
set_error-SameFrame k t p err = memory-SameFrame k _

pub set_ipc_error-SameFrame : (k : Kernel) (t : ℕ) → SameFrame k (set_ipc_error k t)
unfolding set_ipc_error
set_ipc_error-SameFrame k t = memory-SameFrame k _

-- What both phases write where a message does not fit.
pub failed-SameFrame :
    (k : Kernel) (a b p q err : ℕ)
    → SameFrame k (set_ipc_error (set_ipc_error (set_error (set_error k a p err) b q err) a) b)
unfolding set_error set_ipc_error
failed-SameFrame k a b p q err = memory-SameFrame k _

pager_start-Continues :
    (k : Kernel) (pager target : ℕ) (v : IsServing k)
    → IsOther k target
    → Continues k (pager_start_thread k pager target)
unfolding pager_start_thread
pager_start-Continues k pager target v o =
    set_thread_state-Continues target ThreadState.runnable
      (SameFrame-Continues
        (SameFrame-trans (put_tcb-SameFrame k target _ refl refl) (memory-SameFrame _ _)) v)
      o

armed-SameFrame :
    (k : Kernel) (t timeout : ℕ) (alarm : Alarm)
    → SameFrame k (record (arm k t timeout) { alarm = alarm })
unfolding arm
armed-SameFrame k t timeout alarm = record {
  run = record { heap = refl; current = refl; states = λ x. refl };
  tables = record { list = refl; spaces = refl; siblings = λ x. refl };
}

-- The outcome of a phase.
abbrev pub Goes : Kernel → Phase × Kernel → Type 0
Goes k r = Continues k r.1

module _ (k : Kernel) (v : IsServing k) (target : ℕ) (o : IsOther k target) where
  send_found-Goes :
      (to : ℕ) {r : Phase × Kernel} → IsOther k to → send_found k target to ≡ some r → Goes k r
  unfolding send_found
  send_found-Goes to {r} p h =
      let ((e, k1), copied, rest) = bind_inv (copy_payload k target to) _ {b = r} h in
      let same = SameFrame-Continues (copy_payload-SameFrame k target to {r = (e, k1)} copied) v in
      elim (Bool-cases (e == 0)) [
        | inl fine ↦
            rw (← some_inj (rw fine at rest))
              (set_thread_state-Continues to ThreadState.runnable same p)
        | inr bad ↦ rw (← some_inj (rw bad at rest)) (
            set_thread_state-Continues to ThreadState.runnable
              (Continues-trans same
                (SameFrame-Continues (failed-SameFrame k1 target to 0 1 e) same.serving))
              p)
      ]

  send_to_active-Goes :
      (to : ℕ) {r : Phase × Kernel} → IsOther k to → send_to_active k target to ≡ some r → Goes k r
  unfolding send_to_active
  send_to_active-Goes to {r} p h =
      elim (Bool-cases (is_start_message (load_utcb k target (Utcb.mr 0)))) [
        | inl starts ↦ rw (← some_inj (rw starts at h)) (pager_start-Continues k target to v p)
        | inr plain ↦
            let ((e, k1), copied, rest) =
              bind_inv (copy_payload k target to) _ {b = r} (rw plain at h) in
            let same =
              SameFrame-Continues (copy_payload-SameFrame k target to {r = (e, k1)} copied) v in
            elim (Bool-cases (e == 0)) [
              | inl fine ↦ rw (← some_inj (rw fine at rest)) same
              | inr bad ↦ rw (← some_inj (rw bad at rest)) (
                  Continues-trans same (
                    SameFrame-Continues
                      (SameFrame-trans (set_error-SameFrame k1 target 0 e)
                        (set_ipc_error-SameFrame (set_error k1 target 0 e) target))
                      same.serving))
            ]
      ]

  set_thread_timeout-Continues :
      (timeout : ℕ) (state : ThreadState) {r : Bool × Kernel}
      → set_thread_timeout k target timeout state ≡ some r
      → Continues k r.1
  unfolding set_thread_timeout
  set_thread_timeout-Continues timeout state {r} h =
      elim (Bool-cases (is_time_equal timeout never)) [
        | inl forever ↦ rw (← some_inj (rw forever at h)) (Continues-refl v)
        | inr limited ↦ elim (Bool-cases (is_time_equal timeout zero_time)) [
          | inl at_once ↦ rw (← some_inj (rw (limited, at_once) at h)) (Continues-refl v)
          | inr later ↦ elim (Bool-cases (is_point timeout)) [
            | inl point ↦ absurd (let g = (rw (limited, later, point) at h) in cc)
            | inr period ↦
                let (alarm, e, rest) =
                  bind_inv (register_kalarm_event (arm k target timeout).alarm target) _ {b = r}
                    (rw (limited, later, period) at h) in
                rw (← some_inj rest) (
                  set_thread_state-Continues target state
                    (SameFrame-Continues (armed-SameFrame k target timeout alarm) v) o)
          ]
        ]
      ]

  pub block-Goes :
      (partner p timeout : ℕ) (state : ThreadState) {r : Phase × Kernel}
      → block k target partner p timeout state ≡ some r
      → Goes k r
  unfolding block
  block-Goes partner p timeout state {r} h =
      let ((waits, k1), e, rest) =
        bind_inv (set_thread_timeout k target timeout state) _ {b = r} h in
      let c = set_thread_timeout-Continues timeout state {r = (waits, k1)} e in
      elim (Bool-cases waits) [
        | inl may_wait ↦ rw (← some_inj (rw may_wait at rest)) (
            Continues-trans c
              (SameFrame-Continues (put_tcb-SameFrame k1 target _ refl refl) c.serving))
        | inr gives_up ↦
            rw (← some_inj (rw gives_up at rest)) (
              Continues-trans c (SameFrame-Continues (set_error-SameFrame k1 target p 7) c.serving))
      ]

  send_to-Goes :
      (s : Search) (to timeout : ℕ) {r : Phase × Kernel}
      → IsPartner k s
      → send_to s k target to timeout ≡ some r
      → Goes k r
  unfolding send_to
  send_to-Goes nonexistent to timeout p h =
      rw (← some_inj h) (SameFrame-Continues (set_error-SameFrame k target 0 2) v)
  send_to-Goes notready to timeout {r} p h =
      block-Goes to 0 timeout ThreadState.send_blocked {r = r} h
  send_to-Goes (found t) to timeout {r} p h = send_found-Goes t {r = r} p h
  send_to-Goes (pager_msg t) to timeout {r} p h = send_to_active-Goes t {r = r} p h

  pub ipc_send-Goes :
      (to timeout : ℕ) {r : Phase × Kernel} → ipc_send k target to timeout ≡ some r → Goes k r
  unfolding ipc_send
  ipc_send-Goes to timeout {r} h = elim (Bool-cases (is_nil_thread to)) [
    | inl skipped ↦ rw (← some_inj (rw skipped at h)) (Continues-refl v)
    | inr wanted ↦
        let (s, e, rest) =
          bind_inv (find_ipc_partner k target to true) (λ s. send_to s k target to timeout) {b = r}
            (rw wanted at h) in
        send_to-Goes s to timeout {r = r} (find_ipc_partner-IsPartner k target to true {r = s} v e)
          rest
  ]
