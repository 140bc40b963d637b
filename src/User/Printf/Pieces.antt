-- ===== src/User/Printf/Pieces.antt =====
-- Formats of user/include/printf.h as lists of pieces, with the text that each piece stands for.
use foxtail.Common.{ℕ, ◌%◌, ◌≡◌, ◌≢◌, refl, false, some, none, List, [], ◌∷◌, ◌++◌, arith, ok, ◌==◌}
use foxtail.User.Printf.{
  Arg, number, text, itoa, utoa_hex, null_text, printf_item, printf_convert, sprintf_item,
  sprintf_convert,
}

-- A character that is no `%`, the five conversions, a null pointer for a string, and a `%` before
-- another character.
pub data Piece : Type 0 where
  plain : ℕ → Piece
  decimal : ℕ → Piece
  hexadecimal : ℕ → Piece
  string : List ℕ → Piece
  null_string : Piece
  character : ℕ → Piece
  percent : Piece
  other : ℕ → Piece

-- The first byte of the piece in the format, and the others.
abbrev pub first_byte : Piece → ℕ
first_byte (plain c) = c
first_byte _ = b'%'

abbrev pub other_bytes : Piece → List ℕ
other_bytes (plain c) = []
other_bytes (decimal n) = b'd' ∷ []
other_bytes (hexadecimal n) = b'x' ∷ []
other_bytes (string s) = b's' ∷ []
other_bytes null_string = b's' ∷ []
other_bytes (character n) = b'c' ∷ []
other_bytes percent = b'%' ∷ []
other_bytes (other c) = c ∷ []

abbrev pub args_of : Piece → List Arg
args_of (decimal n) = number n ∷ []
args_of (hexadecimal n) = number n ∷ []
args_of (string s) = text (some s) ∷ []
args_of null_string = text none ∷ []
args_of (character n) = number n ∷ []
args_of _ = []

abbrev pub text_of : Piece → List ℕ
text_of (plain c) = c ∷ []
text_of (decimal n) = itoa n
text_of (hexadecimal n) = utoa_hex n
text_of (string s) = s
text_of null_string = null_text
text_of (character n) = n % 256 ∷ []
text_of percent = b'%' ∷ []
text_of (other c) = b'%' ∷ c ∷ []

abbrev pub IsPiece : Piece → Type 0
IsPiece (plain c) = c ≢ b'%'
IsPiece (other c) = (c ≢ b'd') × (c ≢ b'x') × (c ≢ b's') × (c ≢ b'c') × (c ≢ b'%')
IsPiece _ = Unit {0}

abbrev pub format_all : List Piece → List ℕ
format_all [] = []
format_all (p ∷ ps) = first_byte p ∷ (other_bytes p ++ format_all ps)

abbrev pub args_all : List Piece → List Arg
args_all [] = []
args_all (p ∷ ps) = args_of p ++ args_all ps

abbrev pub text_all : List Piece → List ℕ
text_all [] = []
text_all (p ∷ ps) = text_of p ++ text_all ps

abbrev pub ArePieces : List Piece → Type 0
ArePieces [] = Unit {0}
ArePieces (p ∷ ps) = IsPiece p × ArePieces ps

plain_item :
    (c : ℕ) (format : List ℕ) (args : List Arg)
    → c ≢ b'%'
    → sprintf_item c format args ≡ ok (c ∷ [], format, args)
unfolding sprintf_item
plain_item c [] args ne = refl
plain_item c (d ∷ format) args ne = ground arith

other_item :
    (c : ℕ) (format : List ℕ) (args : List Arg)
    → IsPiece (other c)
    → sprintf_item b'%' (c ∷ format) args ≡ ok (b'%' ∷ c ∷ [], format, args)
unfolding sprintf_item sprintf_convert
other_item c format args (d, x, s, h, p) =
    let e1 : (c == b'd') ≡ false = ground arith in
    let e2 : (c == b'x') ≡ false = ground arith in
    let e3 : (c == b's') ≡ false = ground arith in
    let e4 : (c == b'c') ≡ false = ground arith in
    let e5 : (c == b'%') ≡ false = ground arith in rw (e1, e2, e3, e4, e5) refl

-- One round of sprintf on a piece.
pub sprintf_item-piece :
    (p : Piece) (format : List ℕ) (args : List Arg)
    → IsPiece p
    → sprintf_item (first_byte p) (other_bytes p ++ format) (args_of p ++ args)
      ≡ ok (text_of p, format, args)
unfolding sprintf_item sprintf_convert
sprintf_item-piece (plain c) format args ne = plain_item c format args ne
sprintf_item-piece (decimal n) format args h = refl
sprintf_item-piece (hexadecimal n) format args h = refl
sprintf_item-piece (string s) format args h = refl
sprintf_item-piece null_string format args h = refl
sprintf_item-piece (character n) format args h = refl
sprintf_item-piece percent format args h = refl
sprintf_item-piece (other c) format args h = other_item c format args h

-- The switches of printf and sprintf do the same.
pub printf_item-sprintf_item :
    (c : ℕ) (format : List ℕ) (args : List Arg)
    → printf_item c format args ≡ sprintf_item c format args
unfolding printf_item sprintf_item printf_convert sprintf_convert
printf_item-sprintf_item c [] args = refl
printf_item-sprintf_item c (d ∷ format) args = refl
