-- ===== src/Shell.antt =====
-- usr/bsh/bsh.c: the shell's line editor and its output. A call of the terminal's server is a parameter,
-- since it answers over the kernel.
pub mod Editing
pub mod Output
mod Examples
use bradyp_os.Base.{
  ℕ, zero, suc, ◌+◌, ◌-◌, ◌%◌, ◌^◌, Bool, true, false, not, ◌&&◌, ◌||◌, Option, none, some, List,
  [], ◌∷◌, ltb, ◌==◌, if◌then◌else◌, ◌>>=◌,
}
use bradyp_os.Base.Array.{Array, store}

abbrev pub shell_line_max : ℕ
shell_line_max = 128

-- `line_buffer` and `line_pos`
pub record Line : Type 0 where
  pub line_buffer : Array
  pub line_pos : ℕ

-- `line_buffer[line_pos++] = c;`
unfoldable pub push : Line → (c : ℕ) → Line
unfolding store
push s c = record { line_buffer = store s.line_buffer s.line_pos c; line_pos = s.line_pos + 1 }

abbrev pub is_newline : ℕ → Bool
is_newline c = c == b'\r' || c == b'\n'

abbrev pub is_backspace : ℕ → Bool
is_backspace c = c == 0x7f || c == 8

-- A full line, with its end behind it.
unfoldable pub finish : Line → Line
unfolding push store
finish s = let s' = push s b'\n' in record s' { line_buffer = store s'.line_buffer s'.line_pos 0 }

-- What a byte that does not end the line does.
unfoldable pub edit : Line → (c : ℕ) → Line
unfolding push
edit s c =
    if is_newline c
    then s
    else if is_backspace c
    then if ltb 0 s.line_pos then record s { line_pos = s.line_pos - 1 } else s
    else if ltb s.line_pos (shell_line_max - 3)
    then push s c
    else s

-- The loop of `readline` over the received bytes; the result says whether the line is full.
unfoldable pub read_bytes : List ℕ → Line → Line × Bool
read_bytes [] s = (s, false)
read_bytes (c ∷ cs) s =
    let rest = read_bytes cs (edit s c) in
    if is_newline c && ltb s.line_pos (shell_line_max - 2) then (finish s, true) else rest

-- `write_buffer` with `n` chunks at most: the offset and the size of each call of `term_write`.
unfoldable pub chunks : (fuel size offset : ℕ) → Option (List (ℕ × ℕ))
chunks zero size offset = none
chunks (suc n) size offset =
    let payload_size = if ltb 64 (size - offset) then 64 else size - offset in
    let rest = chunks n size (offset + payload_size) in
    if ltb offset size then (rest >>= λ cs. some ((offset, payload_size) ∷ cs)) else some []

-- The answer to a write: whether the IPC failed, the label, and the number of bytes written.
pub record Answer : Type 0 where
  pub failed : Bool
  pub label : ℕ
  pub written : ℕ

abbrev pub term_write_ret : ℕ
term_write_ret = 2

-- The loop of `term_write`, with the answer to the call in each round. `buf` and `size` are what is left.
module _ (answer : (round buf size : ℕ) → Answer) where
  unfoldable pub term_write : (fuel round buf size : ℕ) → Option Bool
  term_write zero round buf size = none
  term_write (suc n) round buf size =
      let a = answer round buf size in
      let rest =
        term_write n (round + 1) ((buf + a.written) % 2 ^ 32)
          ((size + 2 ^ 32 - a.written) % 2 ^ 32) in
      if size == 0
      then some true
      else if a.failed && not (a.label == term_write_ret)
      then some false
      else rest
