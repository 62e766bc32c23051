-- ===== src/Shell/Examples.antt =====
-- The shell on short inputs.
use bradyp_os.Base.{ℕ, ◌≤◌, ◌≡◌, refl, false, List, [], ◌∷◌, arith}
use bradyp_os.Shell.{Line, Answer, read_bytes, finish, edit}
use bradyp_os.Shell.Editing.{contents, text_of, typed_all, read_bytes-typed_all}

abbrev blank : Line
blank = record { line_buffer = λ _. 0; line_pos = 0 }

-- `a`, `b`, backspace, `c`, the end of the line, and a byte behind it.
abbrev keys : List ℕ
keys = b'a' ∷ b'b' ∷ 8 ∷ b'c' ∷ b'\r' ∷ b'x' ∷ []

keys_text : text_of (read_bytes keys blank).0 ≡ b'\n' ∷ b'c' ∷ b'a' ∷ []
unfolding contents read_bytes edit finish
keys_text = refl

read_bytes-typed_all_example :
    (text_of (read_bytes keys blank).0 ≡ (typed_all [] keys).0)
    × ((read_bytes keys blank).1 ≡ (typed_all [] keys).1)
    × ((read_bytes keys blank).0.line_pos ≤ 126)
    × (((read_bytes keys blank).1 ≡ false) → (read_bytes keys blank).0.line_pos ≤ 125)
unfolding contents
read_bytes-typed_all_example = read_bytes-typed_all keys blank (omega arith)

-- A terminal that takes one byte at a time.
abbrev slow : (round buf size : ℕ) → Answer
slow round buf size = record { failed = false; label = 2; written = 1 }

-- A terminal that answers with an error, and its number 1.
abbrev broken : (round buf size : ℕ) → Answer
broken round buf size = record { failed = false; label = 0; written = 1 }
