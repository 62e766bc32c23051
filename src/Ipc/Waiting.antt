-- ===== src/Ipc/Waiting.antt =====
-- kern/syscall/ipc.c: `set_thread_timeout`. `none` means that the kernel panics.
use bradyp_os.Base.{
  ℕ, ◌+◌, ◌/◌, ◌%◌, ◌^◌, Bool, true, false, Option, none, some, if◌then◌else◌, ◌>>=◌,
}
use bradyp_os.Kernel.{ThreadState, Kernel, kalarm_timeout}
use bradyp_os.Alarm.{Event, put, register_kalarm_event}
use bradyp_os.Time.{is_time_equal, never, zero_time, is_point, ticks}
use bradyp_os.Scheduler.{set_thread_state}

-- `timeouts >> 16` and the lower 16 bits.
abbrev pub send_timeout : ℕ → ℕ
send_timeout timeouts = timeouts / 2 ^ 16 % 2 ^ 16

abbrev pub recv_timeout : ℕ → ℕ
recv_timeout timeouts = timeouts % 2 ^ 17 % 2 ^ 16

-- The thread's event with its new time.
unfoldable pub arm : Kernel → (t timeout : ℕ) → Kernel
unfolding put ticks
arm k t timeout =
    let event : Event = record (k.alarm.events t) {
      payload = (k.tcb_store t).global_id;
      kind = kalarm_timeout;
      when = (k.alarm.current_time + ticks timeout) % 2 ^ 32;
    } in
    record k { alarm = record (k.alarm) { events = put k.alarm.events t event } }

-- The result says whether the thread may wait.
unfoldable pub set_thread_timeout : Kernel → (t timeout : ℕ) → ThreadState → Option (Bool × Kernel)
unfolding is_time_equal arm register_kalarm_event set_thread_state
set_thread_timeout k t timeout target_state =
    let k1 = arm k t timeout in
    let armed = register_kalarm_event k1.alarm t >>= λ alarm.
    some (true, set_thread_state (record k1 { alarm = alarm }) t target_state) in
    if is_time_equal timeout never
    then some (true, k)
    else if is_time_equal timeout zero_time
    then some (false, k)
    else if is_point timeout
    then none
    else armed
