-- ===== src/Config/Examples.antt =====
-- The parser on one line, with and without its end. The world is the list of the calls that were made.
use bradyp_os.Base.{ℕ, zero, suc, ◌≡◌, refl, true, none, some, List, [], ◌∷◌, ◌++◌, ◌>>=◌}
use bradyp_os.Base.Array.{Array}
use bradyp_os.Config.{
  Calls, parse_mode, Parser, char_at, step_mode, step_slash, is_slash, finish_path, enter_directory,
  step_path, step_newline, step, parse,
}

abbrev at : List ℕ → Array
at [] i = 0
at (c ∷ cs) zero = c
at (c ∷ cs) (suc i) = at cs i

-- `spawn:/a/b` and the end of the line.
abbrev line : List ℕ
line = b's' ∷ b'p' ∷ b'a' ∷ b'w' ∷ b'n' ∷ b':' ∷ b'/' ∷ b'a' ∷ b'/' ∷ b'b' ∷ b'\n' ∷ []

-- An open of `length` characters in a directory, a start and a close.
data Call : Type 0 where
  opened : (dir_fd file_fd length : ℕ) → Call
  started : (fd : ℕ) → Call
  closed : (fd : ℕ) → Call

abbrev calls : Calls (List Call)
calls = record {
  open_at = λ dir file path length w. (true, w ++ opened dir file length ∷ []);
  run = λ fd w. w ++ started fd ∷ [];
  close = λ fd w. w ++ closed fd ∷ [];
}

abbrev start : Parser (List Call)
start = record { mode = parse_mode; dir_fd = 6; file_fd = 7; str_start = 0; pos = 0; world = [] }

line_parsed :
    (parse calls (at line) 11 20 start >>= λ s. some s.world)
    ≡ some (opened 3 7 1 ∷ opened 7 6 1 ∷ started 6 ∷ closed 7 ∷ closed 6 ∷ [])
unfolding parse step step_mode step_slash is_slash step_path step_newline finish_path
    enter_directory char_at
line_parsed = refl

-- Without the end of the line the parser reads behind the text.
open_line_parsed : (parse calls (at line) 10 20 start >>= λ s. some s.world) ≡ none
unfolding parse step step_mode step_slash is_slash step_path step_newline finish_path
    enter_directory char_at
open_line_parsed = refl
