-- ===== src/User/Editor/Commands.antt =====
-- The command loop of user/src/ed.c. A read gives one chunk of input, a line with its newline as a
-- rule; the buffer of 256 bytes keeps what a shorter line does not overwrite.
use foxtail.Common.{
  ℕ, ◌+◌, ◌-◌, ◌*◌, ◌%◌, Bool, Option, none, some, List, [], ◌∷◌, ◌++◌, take, drop, length, Outcome,
  ok, ◌>>=◌, ltb, leb, not, ◌==◌, ◌&&◌, ◌||◌, get_or, if◌then◌else◌,
}
use foxtail.User.Printf.{c_string, is_negative}
use foxtail.User.Editor.{
  Editor, insert_after, insert_before, replace_line, delete_line, goto_line, print_lines,
}
use foxtail.User.Editor.Files.{save_file}

-- What the program is waiting for: a command, lines to add behind or before, or a new text.
pub data Mode : Type 0 where
  command appending inserting replacing : Mode

pub record Session : Type 0 where
  pub ed : Editor
  pub buffer : List ℕ
  pub file : List ℕ
  pub shown : List (ℕ × List ℕ)

abbrev pub is_digit : ℕ → Bool
is_digit c = leb b'0' c && leb c b'9'

-- atoi: a number that is too large wraps around.
unfoldable pub atoi_from : ℕ → List ℕ → ℕ
atoi_from num [] = num
atoi_from num (c ∷ s) =
    let rest = atoi_from ((num * 10 + (c - b'0')) % 4294967296) s in
    if is_digit c then rest else num

unfoldable pub atoi : List ℕ → ℕ
unfolding atoi_from
atoi s = atoi_from 0 s

-- The front is written, of the buffer and of a file that is saved: opening it does not shorten it.
abbrev overwrite : List ℕ → List ℕ → List ℕ
overwrite bytes buffer = bytes ++ drop (length bytes) buffer

-- The chunk without its last byte, if that is a newline.
unfoldable pub strip_newline : List ℕ → List ℕ
strip_newline [] = []
strip_newline (c ∷ []) = if c == 10 then [] else c ∷ []
strip_newline (c ∷ d ∷ s) = c ∷ strip_newline (d ∷ s)

-- read_line: the length, and the buffer. A NUL stands behind what was read, and in place of the
-- newline.
unfoldable pub read_line : List ℕ → List ℕ → ℕ × List ℕ
unfolding strip_newline
read_line [] buffer = (0, buffer)
read_line (c ∷ s) buffer =
    let line = strip_newline (take 255 (c ∷ s)) in
    (length line, overwrite (line ++ 0 ∷ []) (overwrite (take 255 (c ∷ s) ++ 0 ∷ []) buffer))

abbrev with_ed : Session → Outcome Editor → Outcome Session
with_ed s r = r >>= λ ed. ok (record s { ed = ed })

-- One command, which stands in the buffer and has length `len`; `none` ends the program.
unfoldable pub run_command : ℕ → ℕ → Session → Outcome (Option (Mode × Session))
unfolding atoi
run_command fuel len s =
    let c = get_or s.buffer 0 0 in
    let number = atoi (c_string (drop 2 s.buffer)) in
    if c == b'q'
    then (if s.ed.modified && (leb len 1 || not (get_or s.buffer 1 0 == b'!'))
        then ok (some (command, s))
        else ok none)
    else if c == b'w'
    then (save_file fuel s.ed >>= λ (bytes, ed).
        ok (some (command, record s { ed = ed; file = overwrite bytes s.file })))
    else if c == b'g'
    then (with_ed s (goto_line s.ed number) >>= λ s'. ok (some (command, s')))
    else if c == b'p'
    then (print_lines s.ed (if ltb 2 len then (if is_negative number then 0 else number) else 1)
        >>= λ shown. ok (some (command, record s { shown = s.shown ++ shown })))
    else if c == b'a'
    then ok (some (appending, s))
    else if c == b'i'
    then ok (some (inserting, s))
    else if c == b'r'
    then ok (some (replacing, s))
    else if c == b'd'
    then (with_ed s (delete_line s.ed) >>= λ s'. ok (some (command, s')))
    else ok (some (command, s))

-- One chunk of input in each mode.
unfoldable pub step : ℕ → Mode → List ℕ → Session → Outcome (Option (Mode × Session))
unfolding run_command read_line
step fuel mode chunk s =
    let (len, buffer) = read_line chunk s.buffer in
    let s' = record s { buffer = buffer } in
    let text = c_string buffer in
    elim mode [
      | command ↦ if len == 0 then ok (some (command, s')) else run_command fuel len s'
      | appending ↦
          if len == 0
          then ok (some (command, s'))
          else (with_ed s' (insert_after s.ed text) >>= λ s''. ok (some (appending, s'')))
      | inserting ↦
          if len == 0
          then ok (some (command, s'))
          else (with_ed s' (insert_before s.ed text) >>= λ s''. ok (some (inserting, s'')))
      | replacing ↦ with_ed s' (replace_line s.ed text) >>= λ s''. ok (some (command, s''))
    ]

-- A whole session: the chunks of input, until the program ends or waits for more.
unfoldable pub session : ℕ → Mode → List (List ℕ) → Session → Outcome Session
unfolding step
session fuel mode [] s = ok s
session fuel mode (chunk ∷ input) s = step fuel mode chunk s >>= λ r. elim r [
  | none ↦ ok s
  | some (mode', s') ↦ session fuel mode' input s'
]
