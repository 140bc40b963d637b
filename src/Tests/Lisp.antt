-- ===== src/Tests/Lisp.antt =====
-- The Lisp interpreter of user/src/lisp.c on small texts.
use foxtail.Common.{
  ℕ, zero, suc, ◌≡◌, refl, subst, none, some, List, [], ◌∷◌, ◌++◌, arith, ok, spin, ◌>>=◌,
  some_injective, get_elem?,
}
use foxtail.KString.{list_eq}
use foxtail.User.Printf.{low_digits}
use foxtail.User.Lisp.Values.{
  Value, int, symbol, cons, func, nil, Env, Envs, env_get, env_set, find,
}
use foxtail.User.Lisp.Builtins.{builtin, builtin_mul}
use foxtail.User.Lisp.Reader.{parse_expr}
use foxtail.User.Lisp.Reader.RoundTrip.{parse_expr-print_val}
use foxtail.User.Lisp.Reader.Unclosed.{parse_expr-unclosed}
use foxtail.User.Lisp.Printer.{print_val}
use foxtail.User.Lisp.Eval.{eval, define_text, lambda_text}
use foxtail.User.Lisp.Eval.Scopes.{IsScoped, AllClosed, IsBelow}
use foxtail.User.Lisp.Eval.Keeps.{Grown, eval-Grown}
use foxtail.User.Lisp.Repl.{global_env, respond}

-- `(+ 10 x)`
abbrev sum_value : Value
sum_value = cons (symbol (b'+' ∷ [])) (cons (int 10) (cons (symbol (b'x' ∷ [])) nil))

sum_text : print_val sum_value ≡ b'(' ∷ b'+' ∷ b' ' ∷ b'1' ∷ b'0' ∷ b' ' ∷ b'x' ∷ b')' ∷ []
unfolding print_val low_digits
sum_text = refl

parse_expr-print_val_example :
    parse_expr 20 (print_val sum_value ++ b' ' ∷ []) ≡ ok (sum_value, b' ' ∷ [])
parse_expr-print_val_example =
    parse_expr-print_val 20 sum_value (b' ' ∷ [])
      ((refl, (refl, tt), omega arith), (omega arith, ((refl, (refl, tt), omega arith), tt))) refl
      (omega arith)

parse_expr-unclosed_example : parse_expr 90 (b'(' ∷ b'+' ∷ b' ' ∷ b'1' ∷ b' ' ∷ b'2' ∷ []) ≡ spin
parse_expr-unclosed_example = parse_expr-unclosed 90 (b'+' ∷ b' ' ∷ b'1' ∷ b' ' ∷ b'2' ∷ []) refl

abbrev define_square : List ℕ
define_square =
    b'(' ∷ b'd' ∷ b'e' ∷ b'f' ∷ b'i' ∷ b'n' ∷ b'e' ∷ b' ' ∷ b's' ∷ b'q' ∷ b'u' ∷ b'a' ∷ b'r' ∷ b'e'
    ∷ b' ' ∷ b'(' ∷ b'l' ∷ b'a' ∷ b'm' ∷ b'b' ∷ b'd' ∷ b'a' ∷ b' ' ∷ b'(' ∷ b'n' ∷ b')' ∷ b' '
    ∷ b'(' ∷ b'*' ∷ b' ' ∷ b'n' ∷ b' ' ∷ b'n' ∷ b')' ∷ b')' ∷ b')' ∷ 10 ∷ []

abbrev square_5 : List ℕ
square_5 = b'(' ∷ b's' ∷ b'q' ∷ b'u' ∷ b'a' ∷ b'r' ∷ b'e' ∷ b' ' ∷ b'5' ∷ b')' ∷ 10 ∷ []

-- The two lines of the program's own greeting.
squares :
    (respond 60 60 global_env define_square >>= λ o. elim o [
      | none ↦ spin
      | some (text, envs) ↦ respond 60 60 envs square_5 >>= λ o'. elim o' [
        | none ↦ spin
        | some (text', envs') ↦ ok text'
      ]
    ])
    ≡ ok (b'2' ∷ b'5' ∷ 10 ∷ [])
unfolding respond global_env list_eq env_get env_set find builtin builtin_mul low_digits
squares = refl

-- `(define f (lambda () 1))` in an environment with no bindings, and what it leaves.
abbrev define_f : Value
define_f =
    cons (symbol define_text) (
      cons (symbol (b'f' ∷ []))
        (cons (cons (symbol lambda_text) (cons nil (cons (int 1) nil))) nil))

abbrev empty_env : Envs
empty_env = record { entries = []; parent = none } ∷ []

abbrev with_f : Envs
with_f = record { entries = (b'f' ∷ [], func nil (int 1) 0) ∷ []; parent = none } ∷ []

defined : eval 9 define_f 0 empty_env ≡ ok (func nil (int 1) 0, with_f)
unfolding eval list_eq env_set
defined = refl

empty_env-IsScoped : IsScoped 1 empty_env
empty_env-IsScoped = record { entries = closed; parents = below }
  where
    closed : (e : ℕ) (env : Env) → get_elem? empty_env e ≡ some env → AllClosed 1 env.entries
    closed zero env at = subst (λ (x : Env). AllClosed 1 x.entries) (some_injective at) tt
    closed (suc e) env at = cc

    below : (e : ℕ) (env : Env) → get_elem? empty_env e ≡ some env → IsBelow e env.parent
    below zero env at = subst (λ (x : Env). IsBelow 0 x.parent) (some_injective at) tt
    below (suc e) env at = cc

eval-Grown_example : Grown empty_env with_f (func nil (int 1) 0)
eval-Grown_example =
    eval-Grown 9 define_f 0 empty_env with_f (func nil (int 1) 0) empty_env-IsScoped (omega arith)
      (tt, (tt, ((tt, (tt, (tt, tt))), tt))) defined
