-- ===== src/User/Printf.antt =====
-- user/include/printf.h. An `int` is its 32 bits as a number; a string is the list of the bytes
-- before its NUL.
pub mod Decimal
pub mod Pieces
pub mod Loops
use foxtail.Common.{
  ℕ, zero, suc, ◌+◌, ◌-◌, ◌/◌, ◌%◌, Bool, true, false, Option, none, some, List, [], ◌∷◌, ◌++◌,
  length, Outcome, ok, fault, spin, ◌>>=◌, ltb, leb, ◌==◌, ◌&&◌, not, if◌then◌else◌,
}
use mathlib.Core.List.{reverse}

-- `-n` for an `int`
abbrev pub neg32 : ℕ → ℕ
neg32 n = (4294967296 - n) % 4294967296

-- `n < 0` for an `int`
abbrev pub is_negative : ℕ → Bool
is_negative n = leb 2147483648 n

-- `while (num > 0) temp[j++] = '0' + num % 10`; 10 rounds do for 31 bits (Decimal).
unfoldable pub low_digits : ℕ → ℕ → List ℕ
low_digits zero num = []
low_digits (suc rounds) num =
    let rest = low_digits rounds (num / 10) in if num == 0 then [] else (b'0' + num % 10) ∷ rest

-- The smallest `int` is still negative when its sign is taken off, so it has no digits.
unfoldable pub itoa : ℕ → List ℕ
itoa num =
    if num == 0
    then b'0' ∷ []
    else if not (is_negative num)
    then reverse (low_digits 10 num)
    else (let size = neg32 num in
        reverse ((if is_negative size then [] else low_digits 10 size) ++ b'-' ∷ []))

hex_digit : ℕ → ℕ
hex_digit d = if ltb d 10 then b'0' + d else b'a' + (d - 10)

-- `while (num > 0)`, with 8 rounds for 32 bits.
unfoldable pub low_hex_digits : ℕ → ℕ → List ℕ
unfolding hex_digit
low_hex_digits zero num = []
low_hex_digits (suc rounds) num =
    let rest = low_hex_digits rounds (num / 16) in
    if num == 0 then [] else hex_digit (num % 16) ∷ rest

unfoldable pub utoa_hex : ℕ → List ℕ
unfolding low_hex_digits
utoa_hex num = if num == 0 then b'0' ∷ [] else reverse (low_hex_digits 8 num)

-- An argument behind the format; a null pointer is the string `none`.
pub data Arg : Type 0 where
  number : ℕ → Arg
  text : Option (List ℕ) → Arg

-- "(null)"
abbrev pub null_text : List ℕ
null_text = b'(' ∷ b'n' ∷ b'u' ∷ b'l' ∷ b'l' ∷ b')' ∷ []

-- `va_arg(args, int)`; an argument of another type, or none, is undefined.
abbrev pub as_number : List Arg → Outcome (ℕ × List Arg)
as_number (number n ∷ args) = ok (n, args)
as_number _ = fault

abbrev pub as_text : List Arg → Outcome (List ℕ × List Arg)
as_text (text (some s) ∷ args) = ok (s, args)
as_text (text none ∷ args) = ok (null_text, args)
as_text _ = fault

-- printf's switch: what the specifier `c` puts into the buffer, and the arguments that are left.
unfoldable pub printf_convert : ℕ → List Arg → Outcome (List ℕ × List Arg)
unfolding itoa utoa_hex
printf_convert c args =
    if c == b'd'
    then (as_number args >>= λ (n, rest). ok (itoa n, rest))
    else if c == b'x'
    then (as_number args >>= λ (n, rest). ok (utoa_hex n, rest))
    else if c == b's'
    then as_text args
    else if c == b'c'
    then (as_number args >>= λ (n, rest). ok (n % 256 ∷ [], rest))
    else if c == b'%'
    then ok (b'%' ∷ [], args)
    else ok (b'%' ∷ c ∷ [], args)

-- One round of printf's loop: what is put into the buffer, and what is left of the format. A `%`
-- that ends the format is a character like others.
unfoldable pub printf_item : ℕ → List ℕ → List Arg → Outcome (List ℕ × List ℕ × List Arg)
unfolding printf_convert
printf_item c [] args = ok (c ∷ [], [], args)
printf_item c (d ∷ format) args =
    if c == b'%'
    then (printf_convert d args >>= λ (s, rest). ok (s, format, rest))
    else ok (c ∷ [], d ∷ format, args)

-- The switch of sprintf, and one round of its loop.
unfoldable pub sprintf_convert : ℕ → List Arg → Outcome (List ℕ × List Arg)
unfolding itoa utoa_hex
sprintf_convert c args =
    if c == b'd'
    then (as_number args >>= λ (n, rest). ok (itoa n, rest))
    else if c == b'x'
    then (as_number args >>= λ (n, rest). ok (utoa_hex n, rest))
    else if c == b's'
    then as_text args
    else if c == b'c'
    then (as_number args >>= λ (n, rest). ok (n % 256 ∷ [], rest))
    else if c == b'%'
    then ok (b'%' ∷ [], args)
    else ok (b'%' ∷ c ∷ [], args)

unfoldable pub sprintf_item : ℕ → List ℕ → List Arg → Outcome (List ℕ × List ℕ × List Arg)
unfolding sprintf_convert
sprintf_item c [] args = ok (c ∷ [], [], args)
sprintf_item c (d ∷ format) args =
    if c == b'%'
    then (sprintf_convert d args >>= λ (s, rest). ok (s, format, rest))
    else ok (c ∷ [], d ∷ format, args)

-- The loop of sprintf, into a string with room; a round for each byte of the format is enough.
unfoldable pub sprintf_loop : ℕ → List ℕ → List Arg → Outcome (List ℕ)
unfolding sprintf_item
sprintf_loop zero format args = spin
sprintf_loop (suc fuel) [] args = ok []
sprintf_loop (suc fuel) (c ∷ format) args = sprintf_item c format args >>= λ (s, rest, args').
    sprintf_loop fuel rest args' >>= λ out. ok (s ++ out)

unfoldable pub sprintf : List ℕ → List Arg → Outcome (List ℕ)
sprintf format args = sprintf_loop (suc (length format)) format args

-- The buffer's last byte is for the NUL.
abbrev pub buffer_size : ℕ
buffer_size = 1024

-- The loop of printf behind what stands in `out`. The room is looked at behind each item only, and
-- an item that does not fit, or that leaves no byte for the NUL, is written outside the buffer.
unfoldable pub printf_loop : ℕ → List ℕ → List Arg → List ℕ → Outcome (List ℕ)
unfolding printf_item
printf_loop zero format args out = spin
printf_loop (suc fuel) [] args out = ok out
printf_loop (suc fuel) (c ∷ format) args out = printf_item c format args >>= λ (s, rest, args').
    let out' = out ++ s in
    let more = printf_loop fuel rest args' out' in
    if leb buffer_size (length out')
    then fault
    else if leb (buffer_size - 1) (length out')
    then ok out'
    else more

-- What `puts` writes: the bytes before the first NUL.
unfoldable pub c_string : List ℕ → List ℕ
c_string [] = []
c_string (c ∷ s) = if c == 0 then [] else c ∷ c_string s

-- What printf writes, where there is memory for its buffer.
unfoldable pub printf : List ℕ → List Arg → Outcome (List ℕ)
printf format args = printf_loop (suc (length format)) format args [] >>= λ out. ok (c_string out)
