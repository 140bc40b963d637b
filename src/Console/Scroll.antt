-- ===== src/Console/Scroll.antt =====
-- vga_shift_up of kernel/src/vga.c in text mode.
use foxtail.Common.{
  ℕ, zero, suc, ◌+◌, ◌-◌, ◌*◌, ◌≤◌, ◌<◌, ◌≡◌, ap, arith, Mem, store, ltb, leb, ◌&&◌, if◌then◌else◌,
}
use foxtail.Console.{Console, copy_row, copy_rows, clear_row, shift_up}

-- One row takes the cells of the next.
copy_row_lem :
    (n x y w : ℕ) (m : Mem) (q : ℕ)
    → x + n ≤ w
    → copy_row n x y w m q ≡ (if leb (y * w + x) q && ltb q (y * w + x + n) then m (q + w) else m q)
unfolding copy_row
copy_row_lem zero x y w m q le = ground arith
copy_row_lem (suc n) x y w m q le =
    ground (
      arith,
      copy_row_lem n (x + 1) y w (store m (y * w + x) (m ((y + 1) * w + x))) q (omega arith),
    )

copy_rows_lem :
    (n y w : ℕ) (m : Mem) (q : ℕ)
    → copy_rows n y w m q ≡ (if leb (y * w) q && ltb q ((y + n) * w) then m (q + w) else m q)
unfolding copy_rows
copy_rows_lem zero y w m q = ground arith
copy_rows_lem (suc n) y w m q = ground (
  arith,
  copy_rows_lem n (y + 1) w (copy_row w 0 y w m) q,
  copy_row_lem w 0 y w m q (omega arith),
  copy_row_lem w 0 y w m (q + w) (omega arith),
)

clear_row_lem :
    (n x y w : ℕ) (m : Mem) (q : ℕ)
    → clear_row n x y w m q ≡ (if leb (y * w + x) q && ltb q (y * w + x + n) then 0 else m q)
unfolding clear_row
clear_row_lem zero x y w m q = ground arith
clear_row_lem (suc n) x y w m q =
    ground (arith, clear_row_lem n (x + 1) y w (store m (y * w + x) 0) q)

one_row : (h w : ℕ) → 0 < h → h * w ≡ (h - 1) * w + w
one_row zero w lt = elim lt [ ]
one_row (suc h) w lt = let same : suc h - 1 ≡ h = omega arith in rw same (omega arith)

zero_row : (h w : ℕ) → (0 * w ≡ 0) × ((0 + h) * w ≡ h * w)
zero_row h w = (omega arith, ap (λ k. k * w) (omega arith))

-- Scrolling moves every cell to the row above it, drops the first row, blanks the last one and
-- leaves the memory behind the screen alone.
pub shift_up_lem :
    (s : Console) (q : ℕ)
    → 0 < s.height
    → (shift_up s).cells q ≡ (
        if ltb q ((s.height - 1) * s.width)
        then s.cells (q + s.width)
        else if ltb q (s.height * s.width)
        then 0
        else s.cells q)
unfolding shift_up
shift_up_lem s q some_rows = ground (
  arith,
  one_row s.height s.width some_rows,
  zero_row (s.height - 1) s.width,
  clear_row_lem s.width 0 (s.height - 1) s.width (copy_rows (s.height - 1) 0 s.width s.cells) q,
  copy_rows_lem (s.height - 1) 0 s.width s.cells q,
)
