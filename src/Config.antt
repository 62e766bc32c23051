-- ===== src/Config.antt =====
-- usr/root/config.c: the parser of the inittab, which starts a program for each line `spawn:/path`. The
-- text is an array of characters from `start` to `end`; what the file server and the loader do is a
-- parameter, with a state of its own.
pub mod Ends
mod Examples
use bradyp_os.Base.{
  ℕ, zero, suc, ◌+◌, ◌-◌, Bool, true, false, not, ◌&&◌, ◌||◌, Option, none, some, List, [], ◌∷◌,
  ltb, ◌==◌, if◌then◌else◌, ◌>>=◌,
}
use bradyp_os.Base.Array.{Array}

-- The calls that the parser makes: to open a file of a directory, to start the program of an open file
-- (the answers of `stat` and `map`, and `load_executable`), and to close a file.
pub record Calls (World : Type 0) : Type 0 where
  pub open_at : (dir_fd file_fd path length : ℕ) → World → Bool × World
  pub run : (file_fd : ℕ) → World → World
  pub close : (fd : ℕ) → World → World

abbrev pub root_fd : ℕ
root_fd = 3

abbrev pub other_fd_start : ℕ
other_fd_start = 6

-- `enum parser_state`
pub data Mode : Type 0 where
  parse_mode parse_path_slash parse_path parse_to_newline parse_end parse_error : Mode

pub record Parser (World : Type 0) : Type 0 where
  pub mode : Mode
  pub dir_fd : ℕ
  pub file_fd : ℕ
  pub str_start : ℕ
  pub pos : ℕ
  pub world : World

module _ {World : Type 0} (calls : Calls World) (text : Array) (end : ℕ) where
  -- `*pos`; a read behind the end is none.
  unfoldable pub char_at : (pos : ℕ) → Option ℕ
  char_at pos = if ltb pos end then some (text pos) else none

  abbrev pub spells_spawn : (start : ℕ) → Bool
  spells_spawn start =
      text start == b's'
      && text (start + 1) == b'p'
      && text (start + 2) == b'a'
      && text (start + 3) == b'w'
      && text (start + 4) == b'n'

  unfoldable pub step_mode : Parser World → Option (Parser World)
  step_mode s =
      if s.pos == end
      then some (record s { mode = if s.str_start == s.pos then parse_end else parse_error })
      else char_at s.pos >>= λ c. some (
          if not (c == b':')
          then record s { pos = s.pos + 1 }
          else if not (s.pos - s.str_start == 5) || not (spells_spawn s.str_start)
          then record s { mode = parse_error }
          else record s { mode = parse_path_slash; pos = s.pos + 1; str_start = s.pos + 1 })

  -- The character is not read at the end.
  unfoldable pub is_slash : (pos : ℕ) → Option Bool
  is_slash pos = if pos == end then some false else char_at pos >>= λ c. some (c == b'/')

  unfoldable pub step_slash : Parser World → Option (Parser World)
  step_slash s = is_slash s.pos >>= λ slash. some (
      if not slash
      then record s { mode = parse_to_newline; pos = s.pos + 1 }
      else record s { mode = parse_path; pos = s.pos + 1; str_start = s.pos + 1; dir_fd = root_fd })

  -- The end of a path: the program of the file is started.
  unfoldable pub finish_path : Parser World → Parser World
  finish_path s =
      let opened = calls.open_at s.dir_fd s.file_fd s.str_start (s.pos - s.str_start) s.world in
      let started = if opened.0 then calls.run s.file_fd opened.1 else opened.1 in
      let left = if not (s.dir_fd == root_fd) then calls.close s.dir_fd started else started in
      record {
        mode = parse_mode;
        dir_fd = other_fd_start;
        file_fd = other_fd_start + 1;
        str_start = s.pos + 1;
        pos = s.pos + 1;
        world = calls.close s.file_fd left;
      }

  -- A directory of a path. The position moves on twice.
  unfoldable pub enter_directory : Parser World → Parser World
  enter_directory s =
      let opened = calls.open_at s.dir_fd s.file_fd s.str_start (s.pos - s.str_start) s.world in
      let left = if not (s.dir_fd == root_fd) then calls.close s.dir_fd opened.1 else opened.1 in
      let s' =
        if not opened.0 then record s { mode = parse_to_newline; world = opened.1 } else record s {
          dir_fd = s.file_fd;
          file_fd = if s.dir_fd == root_fd then other_fd_start else s.dir_fd;
          world = left;
        } in
      record s' { str_start = s.pos + 1; pos = s.pos + 2 }

  unfoldable pub step_path : Parser World → Option (Parser World)
  step_path s =
      if s.pos == end
      then some (finish_path s)
      else char_at s.pos >>= λ c. some (
          if c == b'\n'
          then finish_path s
          else if c == b'/'
          then enter_directory s
          else record s { pos = s.pos + 1 })

  unfoldable pub step_newline : Parser World → Option (Parser World)
  step_newline s =
      if s.pos == end
      then some (record s { mode = parse_error })
      else char_at s.pos >>= λ c. some (
          if c == b'\n'
          then record s { mode = parse_mode; str_start = s.pos + 1; pos = s.pos + 1 }
          else record s { pos = s.pos + 1 })

  unfoldable pub step : Mode → Parser World → Option (Parser World)
  step parse_mode s = step_mode s
  step parse_path_slash s = step_slash s
  step parse_path s = step_path s
  step parse_to_newline s = step_newline s
  step parse_end s = some s
  step parse_error s = some s

  abbrev pub is_done : Mode → Bool
  is_done parse_end = true
  is_done parse_error = true
  is_done m = false

  -- The loop; none is a read behind the end of the text, or the end of the fuel.
  unfoldable pub parse : (fuel : ℕ) → Parser World → Option (Parser World)
  parse zero s = none
  parse (suc n) s = if is_done s.mode then some s else step s.mode s >>= λ s'. parse n s'
