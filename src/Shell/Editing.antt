-- ===== src/Shell/Editing.antt =====
-- The line editor of usr/bsh/bsh.c as an editor of a list of characters.
use bradyp_os.Base.{
  ℕ, zero, suc, ◌+◌, ◌-◌, ◌≤◌, ◌≡◌, inl, inr, refl, ap, ◌∙◌, Bool, true, false, List, [], ◌∷◌, ltb,
  if◌then◌else◌, Bool-cases, ge_of_test, sym, arith,
}
use bradyp_os.Base.Array.{Array, store, store_self}
use bradyp_os.Base.Lists.{length}
use bradyp_os.Shell.{Line, push, is_newline, is_backspace, finish, edit, read_bytes}

-- The first `n` bytes, the last of them first.
unfoldable pub contents : Array → (n : ℕ) → List ℕ
contents a zero = []
contents a (suc n) = a n ∷ contents a n

pub length-contents : (a : Array) (n : ℕ) → length (contents a n) ≡ n
unfolding contents
length-contents a zero = refl
length-contents a (suc n) = ap suc (length-contents a n)

contents-store : (a : Array) (i v n : ℕ) → n ≤ i → contents (store a i v) n ≡ contents a n
unfolding contents store
contents-store a i v zero h = refl
contents-store a i v (suc n) h = ground (arith, contents-store a i v n (omega (arith, h)), h)

-- The line without its last character.
abbrev pub without_last : List ℕ → List ℕ
without_last [] = []
without_last (c ∷ cs) = cs

-- A text of at most 125 characters, the last of them first, after a byte that does not end the line.
unfoldable pub typed : List ℕ → (c : ℕ) → List ℕ
typed text c =
    if is_newline c
    then text
    else if is_backspace c
    then without_last text
    else if ltb (length text) 125
    then c ∷ text
    else text

-- The text after the bytes, and whether a line end is among them; the rest behind it is dropped.
abbrev pub typed_all : List ℕ → List ℕ → List ℕ × Bool
typed_all text [] = (text, false)
typed_all text (c ∷ cs) =
    let rest = typed_all (typed text c) cs in if is_newline c then (b'\n' ∷ text, true) else rest

abbrev pub text_of : Line → List ℕ
text_of s = contents s.line_buffer s.line_pos

contents_pred : (a : Array) (n : ℕ) → contents a (n - 1) ≡ without_last (contents a n)
unfolding contents
contents_pred a zero = refl
contents_pred a (suc n) = let same : suc n - 1 ≡ n = omega arith in ap (contents a) same

text_of-push : (s : Line) (c : ℕ) → text_of (push s c) ≡ c ∷ text_of s
unfolding push contents
text_of-push s c =
    let a = store s.line_buffer s.line_pos c in
    let next : s.line_pos + 1 ≡ suc s.line_pos = omega arith in
    ap (contents a) next
    ∙ ap (λ d. d ∷ contents a s.line_pos) (store_self s.line_buffer s.line_pos c)
    ∙ ap (λ cs. c ∷ cs) (contents-store s.line_buffer s.line_pos c s.line_pos (omega arith))

text_of_erased :
    (s : Line)
    → text_of (if ltb 0 s.line_pos then record s { line_pos = s.line_pos - 1 } else s)
      ≡ without_last (text_of s)
unfolding contents
text_of_erased s = elim (Bool-cases (ltb 0 s.line_pos)) [
  | inl more ↦ rw more (contents_pred s.line_buffer s.line_pos)
  | inr nothing ↦
      let at_start : s.line_pos ≡ 0 = omega (arith, ge_of_test 0 s.line_pos nothing) in
      let blank = ap (contents s.line_buffer) at_start in
      rw nothing (blank ∙ sym (ap without_last blank))
]

text_of-edit : (s : Line) (c : ℕ) → text_of (edit s c) ≡ typed (text_of s) c
unfolding edit typed
text_of-edit s c = rw (length-contents s.line_buffer s.line_pos) (elim (Bool-cases (is_newline c)) [
  | inl end ↦ rw end refl
  | inr other ↦ elim (Bool-cases (is_backspace c)) [
    | inl back ↦ rw (other, back) (text_of_erased s)
    | inr char ↦ elim (Bool-cases (ltb s.line_pos 125)) [
      | inl room ↦ rw (other, char, room) (text_of-push s c)
      | inr full ↦ rw (other, char, full) refl
    ]
  ]
])

edit-le : (s : Line) (c : ℕ) → s.line_pos ≤ 125 → (edit s c).line_pos ≤ 125
unfolding edit
edit-le s c h = ground (arith, h)

finish_text : (s : Line) → text_of (finish s) ≡ b'\n' ∷ text_of s
unfolding finish
finish_text s =
    let s' = push s b'\n' in
    contents-store s'.line_buffer s'.line_pos 0 s'.line_pos (omega arith) ∙ text_of-push s b'\n'

-- Every byte of a line that is not full stands within the buffer.
pub finish_lem :
    (s : Line)
    → s.line_pos ≤ 125
    → (text_of (finish s) ≡ b'\n' ∷ text_of s)
      × ((finish s).line_pos ≤ 126)
      × ((finish s).line_buffer (finish s).line_pos ≡ 0)
unfolding finish
finish_lem s h = (finish_text s, ground (arith, h), ground arith)

-- A line of at most 125 characters goes through the bytes of a message as the list of its characters: each
-- byte is a character, a backspace or the end of the line, a character is dropped when 125 are there, and
-- the first end of a line is always taken; the position stays within the buffer of 128 bytes.
pub read_bytes-typed_all :
    (cs : List ℕ) (s : Line)
    → s.line_pos ≤ 125
    → (text_of (read_bytes cs s).0 ≡ (typed_all (text_of s) cs).0)
      × ((read_bytes cs s).1 ≡ (typed_all (text_of s) cs).1)
      × ((read_bytes cs s).0.line_pos ≤ 126)
      × (((read_bytes cs s).1 ≡ false) → (read_bytes cs s).0.line_pos ≤ 125)
unfolding read_bytes
read_bytes-typed_all [] s h = (refl, refl, omega (arith, h), λ _. h)
read_bytes-typed_all (c ∷ cs) s h =
    let rest = read_bytes-typed_all cs (edit s c) (edit-le s c h) in
    let same = text_of-edit s c in
    elim (Bool-cases (is_newline c)) [
      | inl end ↦
          let room : ltb s.line_pos 126 ≡ true = ground (arith, h) in
          let done = finish_lem s h in rw (end, room) (done.0, refl, done.1, λ e. absurd (cc (e)))
      | inr other ↦ rw other (
        rest.0 ∙ ap (λ x. (typed_all x cs).0) same,
        rest.1 ∙ ap (λ x. (typed_all x cs).1) same,
        rest.2,
        rest.3,
      )
    ]
