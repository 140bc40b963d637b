-- ===== src/Tests/Editor.antt =====
-- user/src/ed.c on a file of three lines.
use foxtail.Common.{ℕ, ◌≡◌, refl, none, some, List, [], ◌∷◌, arith, false, ok, ◌>>=◌}
use foxtail.User.Printf.{c_string, is_negative}
use foxtail.User.Editor.{
  Editor, put_node, make_editor, insert_after, remove, delete_line, link_prev, link_next, goto_line,
  print_from, print_lines,
}
use foxtail.User.Editor.Zipper.{Placed, Shows}
use foxtail.User.Editor.Insert.{Inserted, insert_after_lem}
use foxtail.User.Editor.Delete.{Deleted, delete_line_lem}
use foxtail.User.Editor.Steps.{Reached}
use foxtail.User.Editor.Moves.{goto_line_lem}
use foxtail.User.Editor.Files.{load_file, save_from, save_file}
use foxtail.User.Editor.Files.RoundTrip.{save_file-load_file}
use foxtail.User.Editor.Commands.{
  command, Session, atoi_from, atoi, strip_newline, read_line, run_command, step, session,
}

abbrev lines : List (List ℕ)
lines = (b'a' ∷ []) ∷ (b'b' ∷ []) ∷ (b'c' ∷ []) ∷ []

abbrev bytes : List ℕ
bytes = b'a' ∷ 10 ∷ b'b' ∷ 10 ∷ b'c' ∷ 10 ∷ []

-- The lines at 0, 1 and 2, with the second of them current.
abbrev three : Editor
three = record {
  nodes =
      put_node
        (put_node (put_node (λ i. none) 0 (record { text = b'a' ∷ []; next = some 1; prev = none }))
          1 (record { text = b'b' ∷ []; next = some 2; prev = some 0 }))
        2 (record { text = b'c' ∷ []; next = none; prev = some 1 });
  fresh = 3;
  first = some 0;
  current = some 1;
  last = some 2;
  current_line_idx = 2;
  total_lines = 3;
  modified = false;
}

abbrev above : List Placed
above = (0, b'a' ∷ []) ∷ []

abbrev below : List Placed
below = (2, b'c' ∷ []) ∷ []

three-Shows : Shows three above 1 (b'b' ∷ []) below
three-Shows = record {
  node = refl;
  behind = (refl, tt);
  before = (refl, tt);
  first_is = refl;
  last_is = refl;
  current_is = refl;
  behind_avoids = (λ e. absurd (omega (arith, e)), tt);
  before_avoids = (λ e. absurd (omega (arith, e)), tt);
  behind_distinct = (tt, tt);
  before_distinct = (tt, tt);
  disjoint = ((λ e. absurd (omega (arith, e)), tt), tt);
  disjoint' = ((λ e. absurd (omega (arith, e)), tt), tt);
  under = (omega arith, (omega arith, tt), (omega arith, tt));
}

insert_after_lem_example :
    Inserted three ((1, b'b' ∷ []) ∷ above) (b'x' ∷ []) below 3 (insert_after three (b'x' ∷ []))
insert_after_lem_example = insert_after_lem three above 1 (b'b' ∷ []) below (b'x' ∷ []) three-Shows

delete_line_lem_example : Deleted three above below (delete_line three)
delete_line_lem_example = delete_line_lem three above 1 (b'b' ∷ []) below three-Shows

goto_line_lem_example : Reached three above 1 (b'b' ∷ []) below 2 3 (goto_line three 3)
goto_line_lem_example =
    goto_line_lem three 3 above 1 (b'b' ∷ []) below three-Shows refl refl (omega arith)
      (omega arith)

save_file-load_file_example :
    (ed : Editor) × (load_file make_editor bytes ≡ ok ed)
    × (◌≡◌ {A = ℕ} ed.total_lines 3)
    × (save_file 5 ed ≡ ok (bytes, record ed { modified = false }))
save_file-load_file_example =
    save_file-load_file 5 lines
      (
        (λ e. absurd (omega (arith, e)), λ e. absurd (omega (arith, e)), tt),
        omega arith,
        (
          (λ e. absurd (omega (arith, e)), λ e. absurd (omega (arith, e)), tt),
          omega arith,
          ((λ e. absurd (omega (arith, e)), λ e. absurd (omega (arith, e)), tt), omega arith, tt),
        ),
      )
      (omega arith)

abbrev start : Session
start = record { ed = three; buffer = []; file = bytes; shown = [] }

-- "d", "p 2", "w" and "q"
abbrev input : List (List ℕ)
input = (b'd' ∷ 10 ∷ []) ∷ (b'p' ∷ 32 ∷ b'2' ∷ 10 ∷ []) ∷ (b'w' ∷ 10 ∷ []) ∷ (b'q' ∷ 10 ∷ []) ∷ []

-- The file keeps its old end behind the text that is saved.
session_deletes :
    (◌>>=◌ {B = List (ℕ × List ℕ) × List ℕ}
      (session 5 command input start)
      λ s. ok (s.shown, s.file))
    ≡ ok ((2, b'c' ∷ []) ∷ [], b'a' ∷ 10 ∷ b'c' ∷ 10 ∷ b'c' ∷ 10 ∷ [])
unfolding session step run_command read_line strip_newline atoi atoi_from delete_line remove
    link_prev link_next save_file save_from print_lines print_from c_string is_negative
session_deletes = refl
