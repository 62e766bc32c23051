-- ===== src/Ipc/Timeout.antt =====
-- `set_thread_timeout` of kern/syscall/ipc.c and the times of include/l4/time.h that it compares.
use native.Mathlib.Nat.{zero-div}
use bradyp_os.Base.{
  ℕ, ◌+◌, ◌-◌, ◌*◌, ◌/◌, ◌^◌, ◌<◌, ◌≡◌, ◌≢◌, refl, inl, inr, true, false, some, ltb, ◌==◌,
  if◌then◌else◌, arith, Bool-cases, bind_inv, some_inj,
}
use bradyp_os.Kernel.{ThreadState, Kernel}
use bradyp_os.Alarm.{register_kalarm_event}
use bradyp_os.Time.{
  is_time_equal, adj_fix_value, mantissa, exponent, never, zero_time, is_point, max_unsigned,
}
use bradyp_os.Ipc.Waiting.{set_thread_timeout, arm}

-- The shifted value, for a shift of `k`.
abbrev shifted : (m k : ℕ) → ℕ
shifted m k = if ltb m 512 then m * 2 ^ 22 / k else 2 ^ 32 - (2 ^ 32 - m * 2 ^ 22 + k - 1) / k

shifted-one : (m : ℕ) → m < 1024 → shifted m 1 ≡ 0 → m ≡ 0
shifted-one m b h = ground arith

shifted-two : (m : ℕ) → m < 1024 → shifted m 2 ≡ 0 → m ≡ 0
shifted-two m b h = ground arith

adj_zero-mantissa : (v : ℕ) → adj_fix_value v (max_unsigned (exponent v) 1) ≡ 0 → mantissa v ≡ 0
unfolding adj_fix_value
adj_zero-mantissa v h = elim (Bool-cases (exponent v == 0)) [
  | inl e ↦
      let z : exponent v ≡ 0 = ground arith in shifted-two (mantissa v) (omega arith) (rw z at h)
  | inr e ↦
      let keep : max_unsigned (exponent v) 1 ≡ exponent v = ground arith in
      let one : exponent v - exponent v ≡ 0 = omega arith in
      shifted-one (mantissa v) (omega arith) (rw (keep, one) at h)
]

mantissa-adj : (v e : ℕ) → mantissa v ≡ 0 → adj_fix_value v e ≡ 0
unfolding adj_fix_value
mantissa-adj v e h = rw (adj_fix_value, h) (zero-div (2 ^ (e - exponent v)))

zero-never :
    (timeout : ℕ) → is_time_equal timeout zero_time ≡ true → is_time_equal timeout never ≡ true
unfolding is_time_equal
zero-never timeout h =
    let none_left = mantissa-adj zero_time (max_unsigned (exponent timeout) 1) refl in
    let m : mantissa timeout ≡ 0 =
      adj_zero-mantissa timeout (let g = rw none_left at h in ground arith) in
    rw
      (
        is_time_equal,
        mantissa-adj timeout (max_unsigned (exponent timeout) 0) m,
        mantissa-adj never (max_unsigned (exponent timeout) 0) refl,
      )
      refl

-- `set_thread_timeout` never answers that a thread is not to wait: a timeout that it takes for zero
-- it takes for endless before.
pub set_thread_timeout-waits :
    (k : Kernel) (t timeout : ℕ) (s : ThreadState) (k' : Kernel)
    → set_thread_timeout k t timeout s ≢ some (false, k')
unfolding set_thread_timeout
set_thread_timeout-waits k t timeout s k' = λ h. elim (Bool-cases (is_time_equal timeout never)) [
  | inl e ↦ (let g = rw e at h in cc)
  | inr e ↦ elim (Bool-cases (is_time_equal timeout zero_time)) [
    | inl z ↦ (let n = zero-never timeout z in cc)
    | inr z ↦ elim (Bool-cases (is_point timeout)) [
      | inl p ↦ (let g = rw (e, z, p) at h in cc)
      | inr p ↦
          let g = rw (e, z, p) at h in
          let (alarm, _, r) = bind_inv (register_kalarm_event (arm k t timeout).alarm t) _ g in
          (let u = some_inj r in cc)
    ]
  ]
]
