-- ===== src/Tests/Printf.antt =====
-- user/include/printf.h on numbers and a format.
use foxtail.Common.{ℕ, ◌≡◌, refl, some, List, [], ◌∷◌, arith, ok}
use foxtail.User.Printf.{
  Arg, number, text, itoa, low_digits, low_hex_digits, utoa_hex, sprintf, sprintf_loop,
  sprintf_item, sprintf_convert, printf, c_string,
}
use foxtail.User.Printf.Pieces.{Piece, string, plain, hexadecimal, percent, text_all}
use foxtail.User.Printf.Loops.{printf_lem}

itoa_negative : itoa 4294967254 ≡ b'-' ∷ b'4' ∷ b'2' ∷ []
unfolding itoa low_digits
itoa_negative = refl

-- "%s=%x%%"
abbrev format : List ℕ
format = b'%' ∷ b's' ∷ b'=' ∷ b'%' ∷ b'x' ∷ b'%' ∷ b'%' ∷ []

abbrev args : List Arg
args = text (some (b'a' ∷ [])) ∷ number 175 ∷ []

abbrev expected : List ℕ
expected = b'a' ∷ b'=' ∷ b'a' ∷ b'f' ∷ b'%' ∷ []

sprintf-format : sprintf format args ≡ ok expected
unfolding sprintf sprintf_loop sprintf_item sprintf_convert utoa_hex low_hex_digits
sprintf-format = refl

abbrev pieces : List Piece
pieces = string (b'a' ∷ []) ∷ plain b'=' ∷ hexadecimal 175 ∷ percent ∷ []

printf_lem_example :
    (sprintf format args ≡ ok (text_all pieces))
    × (printf format args ≡ ok (c_string (text_all pieces)))
unfolding utoa_hex low_hex_digits
printf_lem_example =
    printf_lem pieces (tt, (λ e. absurd (omega (arith, e)), (tt, (tt, tt)))) (omega arith)
