-- ===== src/Console/Cursor.antt =====
-- The cursor of kernel/src/kprintf.c: where it can stand, and what a backspace does.
use foxtail.Common.{
  ℕ, ◌+◌, ◌-◌, ◌*◌, ◌≤◌, ◌<◌, ◌≡◌, ◌≢◌, refl, sym, ap, ◌∙◌, inl, inr, true, false, List, [], ◌∷◌,
  arith, Bool-cases, store, leb, ◌&&◌, ◌==◌, if◌then◌else◌, subst,
}
use foxtail.Console.{
  Console, cell, putch_at, next_line, print_visible, step_back, backspace, print_char, print,
}

-- The screen has cells, and the cursor stands on one of them.
pub record OnScreen (s : Console) : Type 0 where
  pub row : s.row < s.height
  pub col : s.col < s.width
  pub size : s.height < 65536

next_line-OnScreen :
    (s : Console) → s.row < s.height → 0 < s.width → s.height < 65536 → OnScreen (next_line s)
unfolding next_line
next_line-OnScreen s row col size = elim (Bool-cases (s.row == s.height - 1)) [
  | inl last ↦ rw last (record { row = row; col = col; size = size })
  | inr other ↦ rw other (record { row = ground (arith, row); col = col; size = size })
]

print_visible-OnScreen : (c : ℕ) (s : Console) → OnScreen s → OnScreen (print_visible c s)
unfolding print_visible
print_visible-OnScreen c s v = elim (Bool-cases (leb s.width (s.col + 1))) [
  | inl full ↦ rw full (
      next_line-OnScreen (record (putch_at c s.row s.col s) { col = s.col + 1 }) v.row
        (omega (arith, v.col)) v.size)
  | inr more ↦ rw more (record { row = v.row; col = ground (arith, more); size = v.size })
]

step_back_first :
    (s : Console)
    → s.col ≡ 0
    → s.row ≢ 0
    → s.row < 65536
    → step_back s ≡ record s { row = s.row - 1; col = s.width - 1 }
unfolding step_back
step_back_first s first below small =
    rw first (ap (λ r. record s { row = r; col = s.width - 1 }) (omega arith))

step_back_inside : (s : Console) → s.col ≢ 0 → step_back s ≡ record s { col = s.col - 1 }
unfolding step_back
step_back_inside s inside = ground arith

print_visible_more :
    (c : ℕ) (s : Console)
    → s.col + 1 < s.width
    → print_visible c s
      ≡ record s { col = s.col + 1; cells = store s.cells (s.row * s.width + s.col) (cell c 7) }
unfolding print_visible
print_visible_more c s more = ground arith

print_visible_next :
    (c : ℕ) (s : Console)
    → s.width ≤ s.col + 1
    → s.row + 1 < s.height
    → print_visible c s ≡ record s {
      row = s.row + 1;
      col = 0;
      cells = store s.cells (s.row * s.width + s.col) (cell c 7);
    }
unfolding print_visible
print_visible_next c s full more =
    let wraps : leb s.width (s.col + 1) ≡ true = ground arith in
    let no_scroll : (s.row == s.height - 1) ≡ false = ground arith in rw (wraps, no_scroll)

-- The cell that a backspace goes back to.
abbrev pub back_row : Console → ℕ
back_row s = if s.col == 0 then s.row - 1 else s.row

abbrev pub back_col : Console → ℕ
back_col s = if s.col == 0 then s.width - 1 else s.col - 1

-- The screen with the cursor on a cell and that cell blank.
abbrev pub blank_at : Console → ℕ → ℕ → Console
blank_at s row col = record s {
  row = row;
  col = col;
  cells = store s.cells (row * s.width + col) (cell b' ' 7);
}

moved_back :
    (s : Console)
    → OnScreen s
    → (s.row == 0 && s.col == 0) ≡ false
    → step_back (print_visible b' ' (step_back s)) ≡ blank_at s (back_row s) (back_col s)
moved_back s v not_first = elim (Bool-cases (s.col == 0)) [
  | inl first ↦
      let below : s.row ≢ 0 = ground arith in
      let at_start : s.col ≡ 0 = ground arith in
      let up = record s { row = s.row - 1; col = s.width - 1 } in
      rw
        (
          first,
          step_back_first s at_start below (omega (arith, v.row, v.size)),
          print_visible_next b' ' up (omega (arith, v.col)) (omega (arith, v.row)),
        )
        (step_back_first
            (record up {
              row = up.row + 1;
              col = 0;
              cells = store s.cells (up.row * s.width + up.col) (cell b' ' 7);
            })
            refl (omega arith) (omega (arith, v.row, v.size))
          ∙ ap (λ r. record (blank_at s (s.row - 1) (s.width - 1)) { row = r }) (omega arith))
  | inr inside ↦
      let after : s.col ≢ 0 = ground arith in
      let left = record s { col = s.col - 1 } in
      rw (inside, step_back_inside s after, print_visible_more b' ' left (omega (arith, v.col)))
        (step_back_inside
            (record left {
              col = left.col + 1;
              cells = store s.cells (s.row * s.width + left.col) (cell b' ' 7);
            })
            (omega arith)
          ∙ ap (λ c. record (blank_at s s.row (s.col - 1)) { col = c }) (omega arith))
]

-- A backspace goes back by exactly one cell, over the beginning of a row too, and blanks that cell
-- and no other; in the screen's first cell it does nothing.
pub backspace_lem :
    (s : Console)
    → OnScreen s
    → backspace s ≡ (if s.row == 0 && s.col == 0 then s else blank_at s (back_row s) (back_col s))
unfolding backspace
backspace_lem s v = elim (Bool-cases (s.row == 0 && s.col == 0)) [
  | inl start ↦ ground arith
  | inr other ↦ ground (arith, moved_back s v other)
]

print_char-OnScreen : (c : ℕ) (s : Console) → OnScreen s → OnScreen (print_char c s)
unfolding print_char
print_char-OnScreen c s v = elim (Bool-cases (c == b'\n')) [
  | inl line ↦ rw line (next_line-OnScreen s v.row (omega (arith, v.col)) v.size)
  | inr other ↦ elim (Bool-cases (c == 8)) [
    | inl back ↦ rw (other, back) (subst OnScreen (sym (backspace_lem s v)) back_on)
    | inr visible ↦ rw (other, visible) (print_visible-OnScreen c s v)
  ]
]
  where
    back_on :
        OnScreen (if s.row == 0 && s.col == 0 then s else blank_at s (back_row s) (back_col s))
    back_on = elim (Bool-cases (s.row == 0 && s.col == 0)) [
      | inl start ↦ rw start v
      | inr other ↦ rw other (record {
        row = ground (arith, v.row);
        col = ground (arith, v.col, other);
        size = v.size;
      })
    ]

-- Whatever is printed, newlines, backspaces and scrolling included, the cursor stays on the screen.
pub print-OnScreen : (str : List ℕ) (s : Console) → OnScreen s → OnScreen (print str s)
unfolding print
print-OnScreen [] s v = v
print-OnScreen (c ∷ str) s v = print-OnScreen str (print_char c s) (print_char-OnScreen c s v)
