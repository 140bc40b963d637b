-- ===== src/Tests/Tty.antt =====
-- The terminal of kernel/src/interrupt.c: a line that is typed and read.
use foxtail.Common.{
  ℕ, suc, ap, ◌+◌, ◌<◌, ◌≡◌, refl, false, some, List, [], ◌∷◌, ◌++◌, arith, length,
  length-replicate, get_or, replicate, Mem,
}
use foxtail.Kernel.{Tty, TtyMode, mode_raw, mode_cooked}
use foxtail.Tty.{keyboard_interrupt, tty_read}
use foxtail.Tty.Input.{IsValid, keyboard_interrupt-IsValid}
use foxtail.Tty.Queue.{type_all}
use foxtail.Tty.Lines.{tty_read-type_line, tty_read-type_all_overflow}

abbrev empty : TtyMode → Tty
empty mode = record {
  mode = mode;
  input_buffer = replicate 1024 0;
  read_ptr = 1023;
  write_ptr = 1023;
  internal_write_ptr = 1023;
  left_shift = false;
  right_shift = false;
}

empty-IsValid : (mode : TtyMode) → IsValid (empty mode)
empty-IsValid mode = record {
  size = length-replicate {A = ℕ} 1024 0;
  read_ptr = omega arith;
  write_ptr = omega arith;
  internal_write_ptr = omega arith;
}

abbrev ls : List ℕ
ls = b'l' ∷ b's' ∷ []

keyboard_interrupt-IsValid_example : IsValid (keyboard_interrupt (some 0x1E) (empty mode_cooked)).0
keyboard_interrupt-IsValid_example =
    keyboard_interrupt-IsValid (some 0x1E) (empty mode_cooked) (empty-IsValid mode_cooked)

tty_read-type_line_example :
    ((type_all ls (empty mode_cooked)).read_ptr ≡ (type_all ls (empty mode_cooked)).write_ptr)
    × ((user' : Mem) × (t' : Tty) × (tty_read 64
            (λ _. 0)
            200
            0
            (type_all (ls ++ b'\n' ∷ []) (empty mode_cooked))
          ≡ (length ls + 1, user', t'))
        × ((j : ℕ) → j < length ls → user' (200 + j) ≡ get_or ls j 0)
        × (user' (200 + length ls) ≡ b'\n')
        × (t'.read_ptr ≡ t'.write_ptr))
tty_read-type_line_example =
    tty_read-type_line ls 64 (λ _. 0) 200 (empty mode_cooked) (empty-IsValid mode_cooked) refl refl
      refl (omega arith, omega arith, (omega arith, omega arith, tt)) (omega arith) (omega arith)

abbrev many : List ℕ
many = replicate 1022 b'x'

tty_read-type_all_overflow_example :
    ((user' : Mem) × (t' : Tty) × (tty_read 64 (λ _. 0) 200 0 (type_all ls (empty mode_raw))
        ≡ (2, user', t'))
      × ((j : ℕ) → j < 2 → user' (200 + j) ≡ get_or ls j 0))
    × (tty_read 64 (λ _. 0) 200 0 (type_all (ls ++ many) (empty mode_raw))
        ≡ (0, (λ _. 0), type_all (ls ++ many) (empty mode_raw)))
tty_read-type_all_overflow_example =
    tty_read-type_all_overflow ls many 64 64 (λ _. 0) 200 (empty mode_raw) (empty-IsValid mode_raw)
      refl refl refl (omega arith) (ap (λ k. suc (suc k)) (length-replicate {A = ℕ} 1022 b'x'))
      (omega arith)
