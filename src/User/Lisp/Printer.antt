-- ===== src/User/Lisp/Printer.antt =====
-- The printer of user/src/lisp.c: the text that print_val writes.
use foxtail.Common.{ℕ, List, [], ◌∷◌, ◌++◌}
use foxtail.User.Printf.{itoa}
use foxtail.User.Lisp.Values.{Value, int, symbol, cons, func, nil}

-- "nil", "<function>" and " . "
abbrev pub nil_text : List ℕ
nil_text = b'n' ∷ b'i' ∷ b'l' ∷ []

abbrev pub function_text : List ℕ
function_text = b'<' ∷ b'f' ∷ b'u' ∷ b'n' ∷ b'c' ∷ b't' ∷ b'i' ∷ b'o' ∷ b'n' ∷ b'>' ∷ []

abbrev pub dot_text : List ℕ
dot_text = b' ' ∷ b'.' ∷ b' ' ∷ []

-- `print_tail` is the loop behind the first element, with what stands in place of nil at the end.
unfoldable mutual
  unfolding itoa

  pub print_val : Value → List ℕ
  print_val (int num) = itoa num
  print_val (symbol s) = s
  print_val nil = nil_text
  print_val (cons car cdr) = b'(' ∷ (print_val car ++ (print_tail cdr ++ b')' ∷ []))
  print_val (func params body closure) = function_text

  pub print_tail : Value → List ℕ
  print_tail (cons car cdr) = b' ' ∷ (print_val car ++ print_tail cdr)
  print_tail nil = []
  print_tail (int num) = dot_text ++ itoa num
  print_tail (symbol s) = dot_text ++ s
  print_tail (func params body closure) = dot_text ++ function_text
