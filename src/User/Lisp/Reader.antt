-- ===== src/User/Lisp/Reader.antt =====
-- The parser of user/src/lisp.c, on the bytes that are left before the NUL.
pub mod Atoms
pub mod RoundTrip
pub mod Unclosed
use foxtail.Common.{
  ℕ, zero, suc, ◌+◌, ◌-◌, ◌*◌, ◌%◌, Bool, true, false, List, [], ◌∷◌, Outcome, ok, spin, ◌>>=◌, ltb,
  leb, not, ◌==◌, ◌||◌, ◌&&◌, if◌then◌else◌,
}
use foxtail.User.Printf.{neg32}
use foxtail.User.Lisp.Values.{Value, int, symbol, cons, nil, make_symbol}

abbrev pub isdigit : ℕ → Bool
isdigit c = leb b'0' c && leb c b'9'

abbrev pub isspace : ℕ → Bool
isspace c = c == b' ' || c == 9 || c == 10 || c == 13

unfoldable pub skip_whitespace : List ℕ → List ℕ
skip_whitespace [] = []
skip_whitespace (c ∷ s) = if isspace c then skip_whitespace s else c ∷ s

-- `while (isdigit(**s)) num = num * 10 + (**s - '0')`; a number that is too large wraps around.
unfoldable pub read_digits : ℕ → List ℕ → ℕ × List ℕ
read_digits num [] = (num, [])
read_digits num (c ∷ s) =
    let rest = read_digits ((num * 10 + (c - b'0')) % 4294967296) s in
    if isdigit c then rest else (num, c ∷ s)

abbrev pub ends_symbol : ℕ → Bool
ends_symbol c = isspace c || c == b'(' || c == b')'

-- The loop that fills `buf` with up to `room` bytes.
unfoldable pub read_symbol : ℕ → List ℕ → List ℕ × List ℕ
read_symbol zero s = ([], s)
read_symbol (suc room) [] = ([], [])
read_symbol (suc room) (c ∷ s) =
    let (name, rest) = read_symbol room s in if ends_symbol c then ([], c ∷ s) else (c ∷ name, rest)

read_int : List ℕ → Value × List ℕ
unfolding read_digits
read_int [] = (int 0, [])
read_int (c ∷ s) =
    if c == b'`'
    then (let (num, rest) = read_digits 0 s in (int (neg32 num), rest))
    else (let (num, rest) = read_digits 0 (c ∷ s) in (int num, rest))

-- What parse_expr makes of a text that does not start with an opening parenthesis.
unfoldable pub read_atom : List ℕ → Value × List ℕ
unfolding read_int read_symbol
read_atom [] = (make_symbol [], [])
read_atom (c ∷ s) =
    if c == b'`' || isdigit c
    then read_int (c ∷ s)
    else (let (name, rest) = read_symbol 63 (c ∷ s) in (make_symbol name, rest))

unfoldable pub opens : List ℕ → Bool
opens [] = false
opens (c ∷ s) = c == b'('

unfoldable pub closes : List ℕ → Bool
closes [] = false
closes (c ∷ s) = c == b')'

abbrev pub tail : List ℕ → List ℕ
tail [] = []
tail (c ∷ s) = s

-- A list that is not closed goes on past the end of the text, one call inside another.
unfoldable mutual
  unfolding skip_whitespace read_atom opens closes

  pub parse_expr : ℕ → List ℕ → Outcome (Value × List ℕ)
  parse_expr zero s = spin
  parse_expr (suc fuel) s =
      let text = skip_whitespace s in
      let inner = parse_list fuel (tail text) in if opens text then inner else ok (read_atom text)

  pub parse_list : ℕ → List ℕ → Outcome (Value × List ℕ)
  parse_list zero s = spin
  parse_list (suc fuel) s =
      let text = skip_whitespace s in
      let list = parse_expr fuel text >>= λ (car, s').
      parse_list fuel s' >>= λ (cdr, s''). ok (cons car cdr, s'') in
      if closes text then ok (nil, tail text) else list
