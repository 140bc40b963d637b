-- ===== src/User/Lisp/Builtins.antt =====
-- The built-in functions of user/src/lisp.c. Sums, differences and products of `int`s wrap around,
-- as the processor's do.
use foxtail.Common.{
  ℕ, ◌+◌, ◌*◌, ◌/◌, ◌%◌, Bool, true, false, List, [], ◌∷◌, Outcome, ok, fault, ◌>>=◌, ◌==◌,
  if◌then◌else◌,
}
use foxtail.KString.{list_eq}
use foxtail.User.Printf.{neg32, is_negative}
use foxtail.User.Lisp.Values.{Value, int, cons, nil}

-- The loop of builtin_add; what is no number is passed over.
unfoldable pub add_all : ℕ → Value → ℕ
add_all sum (cons (int num) args) = add_all ((sum + num) % 4294967296) args
add_all sum (cons _ args) = add_all sum args
add_all sum _ = sum

unfoldable pub builtin_add : Value → Outcome Value
unfolding add_all
builtin_add args = ok (int (add_all 0 args))

unfoldable pub sub_all : ℕ → Value → ℕ
sub_all result (cons (int num) args) = sub_all ((result + neg32 num) % 4294967296) args
sub_all result (cons _ args) = sub_all result args
sub_all result _ = result

-- `args->data.cons.car->data.num` is read whatever the first argument is; the bits of a pointer, or
-- of memory that is not initialised, have no value here.
abbrev pub first_num : Value → Outcome ℕ
first_num (int num) = ok num
first_num _ = fault

unfoldable pub builtin_sub : Value → Outcome Value
unfolding sub_all
builtin_sub (cons first args) = first_num first >>= λ num. ok (int (sub_all num args))
builtin_sub _ = ok (int 0)

unfoldable pub mul_all : ℕ → Value → ℕ
mul_all prod (cons (int num) args) = mul_all (prod * num % 4294967296) args
mul_all prod (cons _ args) = mul_all prod args
mul_all prod _ = prod

unfoldable pub builtin_mul : Value → Outcome Value
unfolding mul_all
builtin_mul args = ok (int (mul_all 1 args))

abbrev magnitude : ℕ → ℕ
magnitude num = if is_negative num then neg32 num else num

same_sign : ℕ → ℕ → Bool
same_sign a b = if is_negative a then is_negative b else (if is_negative b then false else true)

-- `/` of two `int`s goes towards 0. A quotient of 2 ^ 31 makes the processor stop the program.
unfoldable pub divide : ℕ → ℕ → Outcome ℕ
unfolding same_sign
divide a b =
    let q = magnitude a / magnitude b in
    if same_sign a b then (if q == 2147483648 then fault else ok q) else ok (neg32 q)

-- A divisor of zero is passed over.
unfoldable pub div_all : ℕ → Value → Outcome ℕ
unfolding divide
div_all result (cons (int num) args) =
    let go_on = divide result num >>= λ q. div_all q args in
    let rest = div_all result args in if num == 0 then rest else go_on
div_all result (cons _ args) = div_all result args
div_all result _ = ok result

unfoldable pub builtin_div : Value → Outcome Value
unfolding div_all
builtin_div (cons first args) =
    first_num first >>= λ num. div_all num args >>= λ result. ok (int result)
builtin_div _ = ok (int 0)

-- The function that a symbol names, on evaluated arguments; a symbol that names none is a function
-- that is not user-defined either, so the call is nil.
unfoldable pub builtin : List ℕ → Value → Outcome Value
builtin name args =
    if list_eq name (b'+' ∷ [])
    then builtin_add args
    else if list_eq name (b'-' ∷ [])
    then builtin_sub args
    else if list_eq name (b'*' ∷ [])
    then builtin_mul args
    else if list_eq name (b'/' ∷ [])
    then builtin_div args
    else ok nil
