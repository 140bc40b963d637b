-- ===== src/Console.antt =====
-- kernel/src/vga.c in text mode and kernel/src/kprintf.c: the screen and the cursor, and numbers in
-- decimal (Numbers). Graphics mode draws the same characters as pixels and is not modelled.
pub mod Cursor
pub mod Numbers
pub mod Scroll
pub mod Format
use foxtail.Common.{
  ℕ, zero, suc, ◌+◌, ◌-◌, ◌*◌, ◌/◌, ◌%◌, List, [], ◌∷◌, Mem, store, leb, ltb, ◌==◌, if◌then◌else◌,
}

-- `vga_width`, `vga_height`, the cursor, and the word in each cell of VGA memory.
pub record Console : Type 0 where
  pub width : ℕ
  pub height : ℕ
  pub row : ℕ
  pub col : ℕ
  pub cells : Mem

-- `((u16) attr << 8) | (u8) c`, for a character of one byte.
abbrev pub cell : ℕ → ℕ → ℕ
cell c attr = attr * 256 + c % 256

pub putch_at : ℕ → ℕ → ℕ → Console → Console
putch_at c row col s = record s { cells = store s.cells (row * s.width + col) (cell c 7) }

-- `for (x = …; x < vga_width; x++) VGA[y * w + x] = VGA[(y + 1) * w + x]`, from `x` on.
copy_row : ℕ → ℕ → ℕ → ℕ → Mem → Mem
copy_row zero x y w m = m
copy_row (suc n) x y w m = copy_row n (x + 1) y w (store m (y * w + x) (m ((y + 1) * w + x)))

-- `for (y = …; y < vga_height - 1; y++)`, from `y` on.
copy_rows : ℕ → ℕ → ℕ → Mem → Mem
copy_rows zero y w m = m
copy_rows (suc n) y w m = copy_rows n (y + 1) w (copy_row w 0 y w m)

-- `for (x = …; x < vga_width; x++) VGA[(vga_height - 1) * w + x] = 0`, from `x` on.
clear_row : ℕ → ℕ → ℕ → ℕ → Mem → Mem
clear_row zero x y w m = m
clear_row (suc n) x y w m = clear_row n (x + 1) y w (store m (y * w + x) 0)

pub shift_up : Console → Console
unfolding copy_row copy_rows clear_row
shift_up s = record s {
  cells = clear_row s.width 0 (s.height - 1) s.width (copy_rows (s.height - 1) 0 s.width s.cells);
}

pub next_line : Console → Console
unfolding shift_up
next_line s =
    let s' = record s { col = 0 } in
    if s.row == s.height - 1 then shift_up s' else record s' { row = s.row + 1 }

-- The branch of kprint_char for a character that shows.
pub print_visible : ℕ → Console → Console
unfolding putch_at next_line
print_visible c s =
    let s' = putch_at c s.row s.col s in
    let s'' = record s' { col = s.col + 1 } in
    if leb s.width (s.col + 1) then next_line s'' else s''

-- One cell back; `cursor_row--` in `u32`.
pub step_back : Console → Console
step_back s =
    if s.col == 0
    then record s { row = (s.row + 4294967295) % 4294967296; col = s.width - 1 }
    else record s { col = s.col - 1 }

pub backspace : Console → Console
unfolding step_back print_visible
backspace s =
    if s.col == 0
    then (if s.row == 0 then s else step_back (print_visible b' ' (step_back s)))
    else step_back (print_visible b' ' (step_back s))

pub print_char : ℕ → Console → Console
unfolding next_line backspace print_visible
print_char c s =
    if c == b'\n' then next_line s else if c == 8 then backspace s else print_visible c s

pub print : List ℕ → Console → Console
unfolding print_char
print [] s = s
print (c ∷ str) s = print str (print_char c s)
