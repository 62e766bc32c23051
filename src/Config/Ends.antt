-- ===== src/Config/Ends.antt =====
-- Where the parser of usr/root/config.c stops at the end of its text, and where it does not.
use bradyp_os.Base.{ℕ, zero, suc, ◌<◌, ◌≡◌, ◌⊎◌, inl, inr, refl, ◌∙◌, none, arith}
use bradyp_os.Base.Array.{Array}
use bradyp_os.Config.{
  Calls, Mode, parse_mode, parse_path, parse_to_newline, Parser, char_at, step_mode, finish_path,
  step_path, step_newline, step, parse,
}

module _ {World : Type 0} (calls : Calls World) (text : Array) (end : ℕ) where
  char_behind : (pos : ℕ) → end < pos → char_at calls text end pos ≡ none
  unfolding char_at
  char_behind pos h = ground (arith, h)

  -- Behind the end of the text, every mode in which the parser goes on reads a character.
  behind_end :
      (s : Parser World) (m : Mode)
      → end < s.pos
      → (m ≡ parse_mode) ⊎ (m ≡ parse_to_newline)
      → step calls text end m s ≡ none
  unfolding step step_mode step_newline
  behind_end s m h (inl e) = rw e (ground (arith, char_behind s.pos h, h))
  behind_end s m h (inr e) = rw e (ground (arith, char_behind s.pos h, h))

  no_fuel : (s : Parser World) → parse calls text end zero s ≡ none
  unfolding parse
  no_fuel s = refl

  stuck_behind :
      (n : ℕ) (s : Parser World)
      → s.mode ≡ parse_mode
      → end < s.pos
      → parse calls text end n s ≡ none
  unfolding parse
  stuck_behind zero s m h = refl
  stuck_behind (suc n) s m h = ground (arith, m, behind_end s s.mode h (inl m))

  last_round :
      (n : ℕ) (s : Parser World)
      → s.mode ≡ parse_path
      → s.pos ≡ end
      → parse calls text end (suc n) s ≡ parse calls text end n (finish_path calls text end s)
  unfolding parse step step_path
  last_round n s m e = ground (arith, m, e)

  finish_path-behind :
      (s : Parser World)
      → s.pos ≡ end
      → ((finish_path calls text end s).mode ≡ parse_mode)
        × (end < (finish_path calls text end s).pos)
  unfolding finish_path
  finish_path-behind s e = (refl, omega (arith, e))

  -- A path that goes to the end of the text, with no end of the line behind it, takes the parser behind
  -- the end: whatever the calls answer, under no fuel does it stop, since a later round reads outside of
  -- the text.
  pub parse-ends_behind :
      (fuel : ℕ) (s : Parser World)
      → s.mode ≡ parse_path
      → s.pos ≡ end
      → parse calls text end fuel s ≡ none
  parse-ends_behind zero s m e = no_fuel s
  parse-ends_behind (suc n) s m e =
      let behind = finish_path-behind s e in
      last_round n s m e ∙ stuck_behind n (finish_path calls text end s) behind.0 behind.1
