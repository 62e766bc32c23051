-- ===== src/Memory.antt =====
-- The memory of the threads: stacks, UTCBs (include/l4/utcb.h), the words of messages
-- (include/l4/ipc.h) and flexpages (include/l4/fpage.h, include/l4/space.h). The memory is an array of
-- 32-bit words, and a pointer a byte address; the byte k of a word is w / 256 ^ k % 256.
pub mod Utcb
pub mod Tag
pub mod Copies
use bradyp_os.Base.{
  ℕ, zero, suc, ◌+◌, ◌-◌, ◌*◌, ◌/◌, ◌%◌, ◌^◌, Bool, false, Option, some, ◌>>=◌, ◌&&◌, ltb, leb,
  ◌==◌, if◌then◌else◌,
}
use bradyp_os.Base.Array.{Array, store}
use bradyp_os.Fpage.{shifted_one}
use bradyp_os.Kernel.{Kernel, Tcb}

-- `((unsigned *)base)[i]`
abbrev pub word_at : ℕ → ℕ → ℕ
word_at base i = base / 4 + i

unfoldable pub load : Kernel → (base i : ℕ) → ℕ
load k base i = k.memory (word_at base i)

unfoldable pub save : Kernel → (base i v : ℕ) → Kernel
unfolding store
save k base i v = record k { memory = store k.memory (word_at base i) v }

-- `enum thread_context_stack_registers` and the entry of `r` that holds r4 and r7.
abbrev pub stack_r0 : ℕ
stack_r0 = 0

abbrev pub stack_r1 : ℕ
stack_r1 = 1

abbrev pub stack_r2 : ℕ
stack_r2 = 2

abbrev pub stack_r3 : ℕ
stack_r3 = 3

abbrev pub stack_pc : ℕ
stack_pc = 6

abbrev pub stack_psr : ℕ
stack_psr = 7

abbrev pub stack_word_count : ℕ
stack_word_count = 8

abbrev pub ctx_r4 : ℕ
ctx_r4 = 4

abbrev pub ctx_r7 : ℕ
ctx_r7 = 7

-- `tag.flags |= 1 << L4_msg_tag_flag_error_indicator`: bit 15 of the tag.
unfoldable pub add_error_flag : ℕ → ℕ
add_error_flag raw = if raw / 2 ^ 15 % 2 == 1 then raw else raw + 2 ^ 15

-- `enum L4_ipc_error_code`, and an `L4_ipc_error_t` whose offset is 0.
abbrev pub ipc_error_timeout : ℕ
ipc_error_timeout = 1

abbrev pub ipc_error_nonexistent_partner : ℕ
ipc_error_nonexistent_partner = 2

abbrev pub ipc_error_message_overflow : ℕ
ipc_error_message_overflow = 4

abbrev pub ipc_error_aborted : ℕ
ipc_error_aborted = 7

abbrev pub ipc_error : (p err : ℕ) → ℕ
ipc_error p err = p + 2 * err

-- The kinds of typed items, bits 1 to 3 of their first word.
abbrev pub map_item : ℕ
map_item = 4

abbrev pub string_item : ℕ
string_item = 0

abbrev pub item_type : ℕ → ℕ
item_type w = w / 2 % 8

-- Fields of a string item's first word.
abbrev pub item_compound : ℕ → ℕ
item_compound w = w / 2 ^ 9 % 2

abbrev pub item_length : ℕ → ℕ
item_length w = w / 2 ^ 10

-- `memcpy` of `n` words from word `src` to word `dst`, the first word first.
unfoldable pub copy_words : (n dst src : ℕ) → Array → Array
copy_words zero dst src m = m
copy_words (suc n) dst src m = copy_words n (dst + 1) (src + 1) (store m dst (m src))

unfoldable pub load_byte : Array → ℕ → ℕ
load_byte m a = m (a / 4) / 256 ^ (a % 4) % 256

unfoldable pub save_byte : Array → ℕ → ℕ → Array
unfolding store load_byte
save_byte m a v = store m (a / 4) (m (a / 4) - load_byte m a * 256 ^ (a % 4) + v * 256 ^ (a % 4))

-- `memcpy` of `n` bytes.
unfoldable pub copy_bytes : (n dst src : ℕ) → Array → Array
copy_bytes zero dst src m = m
copy_bytes (suc n) dst src m = copy_bytes n (dst + 1) (src + 1) (save_byte m dst (load_byte m src))

-- The address and size of a flexpage; the size is none where C leaves its shift undefined.
abbrev pub fpage_address : ℕ → ℕ
fpage_address raw = raw / 2 ^ 10 * 2 ^ 9

unfoldable pub fpage_size : ℕ → Option ℕ
unfolding shifted_one
fpage_size raw = shifted_one (raw / 2 ^ 4 % 2 ^ 6 + 9)

-- The sums are of type `unsigned`. The size is read only where the page does not begin behind the object.
unfoldable pub fpage_contains_object : (page base size : ℕ) → Option Bool
unfolding fpage_size
fpage_contains_object page base size =
    let ends_behind = fpage_size page >>= λ n.
    some (ltb ((base + size) % 2 ^ 32) ((fpage_address page + n) % 2 ^ 32)) in
    if leb (fpage_address page) base then ends_behind else some false

-- Writes to the UTCB of thread `t`.
unfoldable pub save_utcb : Kernel → (t i v : ℕ) → Kernel
unfolding save
save_utcb k t i v = save k (k.tcb_store t).utcb i v

unfoldable pub load_utcb : Kernel → (t i : ℕ) → ℕ
unfolding load
load_utcb k t i = load k (k.tcb_store t).utcb i

-- Reads and writes on the stack of thread `t`.
unfoldable pub save_stack : Kernel → (t i v : ℕ) → Kernel
unfolding save
save_stack k t i v = save k (k.tcb_store t).ctx.sp i v

unfoldable pub load_stack : Kernel → (t i : ℕ) → ℕ
unfolding load
load_stack k t i = load k (k.tcb_store t).ctx.sp i

-- kern/thread.c: `write_utcb`.
unfoldable pub write_utcb : Kernel → (t : ℕ) → Kernel
unfolding save_utcb
write_utcb k t =
    let k1 = save_utcb k t Utcb.global_id (k.tcb_store t).global_id in
    let k2 = save_utcb k1 t Utcb.processor_no 0 in
    let k3 = save_utcb k2 t Utcb.t_pager (k.tcb_store t).pager in save_utcb k3 t Utcb.error 0
