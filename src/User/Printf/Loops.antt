-- ===== src/User/Printf/Loops.antt =====
-- printf of user/include/printf.h against sprintf.
use foxtail.Common.{
  ℕ, zero, suc, ◌-◌, ◌≤◌, ◌<◌, ◌≡◌, refl, sym, ap, ◌∙◌, subst, false, List, [], ◌∷◌, ◌++◌,
  append-nil, append_assoc, arith, length, length-append, ok, >>=-eq-ok, ok_injective, leb,
  Bool-cases, inl, inr,
}
use foxtail.User.Printf.Pieces.{
  Piece, other_bytes, format_all, args_all, text_all, ArePieces, sprintf_item-piece,
  printf_item-sprintf_item,
}
use foxtail.User.Printf.{
  Arg, sprintf_item, sprintf_loop, sprintf, printf_loop, printf, c_string, buffer_size,
}

append_short : (s t : List ℕ) → length (s ++ t) ≤ length s → s ++ t ≡ s
append_short s [] h = append-nil s
append_short s (c ∷ t) h = absurd (omega (arith, length-append {0} s (c ∷ t)))

-- The string that sprintf makes behind `out` is what the loop of printf makes, where it has room.
printf_loop_lem :
    (fuel : ℕ) (format : List ℕ) (args : List Arg) (out s : List ℕ)
    → sprintf_loop fuel format args ≡ ok s
    → length (out ++ s) < buffer_size
    → printf_loop fuel format args out ≡ ok (out ++ s)
unfolding sprintf_loop printf_loop
printf_loop_lem zero format args out s run fits = cc
printf_loop_lem (suc fuel) [] args out s run fits =
    ap ok (sym (append-nil out) ∙ ap (λ t. out ++ t) (ok_injective run))
printf_loop_lem (suc fuel) (c ∷ format) args out s run fits =
    let ((a, rest, args'), first, next) = >>=-eq-ok (sprintf_item c format args) _ run in
    let first' = printf_item-sprintf_item c format args ∙ first in
    let (b, behind, last) = >>=-eq-ok (sprintf_loop fuel rest args') _ next in
    let whole : (out ++ a) ++ b ≡ out ++ s =
      append_assoc out a b ∙ ap (λ t. out ++ t) (ok_injective last) in
    let fits' : length ((out ++ a) ++ b) < buffer_size =
      subst (λ (t : List ℕ). length t < buffer_size) (sym whole) fits in
    let ih = printf_loop_lem fuel rest args' (out ++ a) b behind fits' in
    let sum = length-append {0} (out ++ a) b in
    let room : leb buffer_size (length (out ++ a)) ≡ false = ground (arith, sum, fits') in
    elim (Bool-cases (leb (buffer_size - 1) (length (out ++ a)))) [
      | inl full ↦
          let short : length ((out ++ a) ++ b) ≤ length (out ++ a) = ground (arith, fits') in
          rw (first', room, full) (ap ok (sym (append_short (out ++ a) b short) ∙ whole))
      | inr more ↦ rw (first', room, more) (ih ∙ ap ok whole)
    ]

-- Where the string that sprintf makes leaves room for a NUL in printf's buffer of 1024 bytes, printf
-- writes that string, up to its first NUL.
printf-sprintf :
    (format : List ℕ) (args : List Arg) (s : List ℕ)
    → sprintf format args ≡ ok s
    → length s < buffer_size
    → printf format args ≡ ok (c_string s)
unfolding sprintf printf
printf-sprintf format args s run fits =
    rw (printf_loop_lem (suc (length format)) format args [] s run fits) refl

sprintf_loop-pieces :
    (fuel : ℕ) (ps : List Piece)
    → ArePieces ps
    → length (format_all ps) < fuel
    → sprintf_loop fuel (format_all ps) (args_all ps) ≡ ok (text_all ps)
unfolding sprintf_loop
sprintf_loop-pieces zero ps h enough = absurd (omega arith)
sprintf_loop-pieces (suc fuel) [] h enough = refl
sprintf_loop-pieces (suc fuel) (p ∷ ps) (is, h) enough =
    rw
      (
        sprintf_item-piece p (format_all ps) (args_all ps) is,
        sprintf_loop-pieces fuel ps h
            (omega (arith, enough, length-append {0} (other_bytes p) (format_all ps))),
      )
      refl

-- A format is a list of pieces: characters, conversions, and `%` before a character that is no
-- conversion. sprintf makes the text of the pieces one behind another: decimal numbers by itoa,
-- hexadecimal ones by utoa_hex, strings as they are, `(null)` for a null pointer, the lowest byte
-- for a character. If this leaves room for a NUL in printf's buffer of 1024 bytes, printf writes the
-- same text, up to its first NUL.
pub printf_lem :
    (ps : List Piece)
    → ArePieces ps
    → length (text_all ps) < buffer_size
    → (sprintf (format_all ps) (args_all ps) ≡ ok (text_all ps))
      × (printf (format_all ps) (args_all ps) ≡ ok (c_string (text_all ps)))
unfolding sprintf
printf_lem ps h fits =
    let made = sprintf_loop-pieces (suc (length (format_all ps))) ps h (omega arith) in
    (made, printf-sprintf (format_all ps) (args_all ps) (text_all ps) made fits)
