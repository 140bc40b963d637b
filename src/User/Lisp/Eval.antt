-- ===== src/User/Lisp/Eval.antt =====
-- The evaluator of user/src/lisp.c. Programs need not end, so it runs on fuel.
pub mod Scopes
pub mod Keeps
use foxtail.Common.{
  ℕ, zero, suc, ◌+◌, Bool, true, false, Option, none, some, List, [], ◌∷◌, length, Outcome, ok,
  fault, spin, ◌>>=◌, if◌then◌else◌,
}
use foxtail.KString.{list_eq}
use foxtail.User.Lisp.Values.{Value, int, symbol, cons, func, nil, Envs, make_env, env_set, env_get}
use foxtail.User.Lisp.Builtins.{builtin}

abbrev pub Result : Type 0
Result = Outcome (Value × Envs)

-- A field of the union that the value's type does not have is memory that is not initialised, or
-- another field's.
abbrev pub car_of : Value → Outcome Value
car_of (cons car cdr) = ok car
car_of _ = fault

abbrev pub cdr_of : Value → Outcome Value
cdr_of (cons car cdr) = ok cdr
cdr_of _ = fault

abbrev pub symbol_of : Value → Outcome (List ℕ)
symbol_of (symbol s) = ok s
symbol_of _ = fault

-- "define" and "lambda"
abbrev pub define_text : List ℕ
define_text = b'd' ∷ b'e' ∷ b'f' ∷ b'i' ∷ b'n' ∷ b'e' ∷ []

abbrev pub lambda_text : List ℕ
lambda_text = b'l' ∷ b'a' ∷ b'm' ∷ b'b' ∷ b'd' ∷ b'a' ∷ []

-- `op->type == LISP_SYMBOL && streq(op->data.symbol, …)`
abbrev pub is_form : Value → List ℕ → Bool
is_form (symbol s) text = list_eq s text
is_form _ text = false

-- The special form `(define name value)`; `ev` is the evaluator.
unfoldable pub eval_define : (Value → ℕ → Envs → Result) → Value → ℕ → Envs → Result
eval_define ev args e envs = car_of args >>= λ sym. cdr_of args >>= λ rest. car_of rest >>= λ expr.
    ev expr e envs >>= λ (val, envs').
    symbol_of sym >>= λ name. env_set envs' e name val >>= λ envs''. ok (val, envs'')

-- The special form `(lambda params body)`
unfoldable pub eval_lambda : Value → ℕ → Envs → Result
eval_lambda args e envs = car_of args >>= λ params.
    cdr_of args >>= λ rest. car_of rest >>= λ body. ok (func params body e, envs)

-- The loop that binds parameters to arguments, as far as both go.
unfoldable pub bind_all : Value → Value → ℕ → Envs → Outcome Envs
bind_all (cons param params) (cons arg args) e envs =
    symbol_of param >>= λ name. env_set envs e name arg >>= λ envs'. bind_all params args e envs'
bind_all _ _ e envs = ok envs

-- A call, once the operator is evaluated; `ev` evaluates, `ev_list` evaluates arguments.
unfoldable pub call :
    (Value → ℕ → Envs → Result) → (Value → ℕ → Envs → Result) → Value → Value → ℕ → Envs → Result
unfolding bind_all
call ev ev_list (symbol name) args e envs =
    ev_list args e envs >>= λ (vals, envs'). builtin name vals >>= λ val. ok (val, envs')
call ev ev_list (func params body closure) args e envs =
    let new_env = length envs in
    ev_list args e (make_env envs (some closure)) >>= λ (vals, envs').
    bind_all params vals new_env envs' >>= λ envs''. ev body new_env envs''
call ev ev_list _ args e envs = ok (nil, envs)

unfoldable mutual
  unfolding eval_define eval_lambda call

  pub eval : ℕ → Value → ℕ → Envs → Result
  eval zero expr e envs = spin
  eval (suc fuel) (int num) e envs = ok (int num, envs)
  eval (suc fuel) (symbol s) e envs = env_get (suc e) envs e s >>= λ v. ok (v, envs)
  eval (suc fuel) nil e envs = ok (nil, envs)
  eval (suc fuel) (func params body closure) e envs = ok (nil, envs)
  eval (suc fuel) (cons op args) e envs =
      let ev = eval fuel in
      let ev_list = eval_list fuel in
      if is_form op define_text
      then eval_define ev args e envs
      else if is_form op lambda_text
      then eval_lambda args e envs
      else ev op e envs >>= λ (fun, envs'). call ev ev_list fun args e envs'

  pub eval_list : ℕ → Value → ℕ → Envs → Result
  eval_list zero args e envs = spin
  eval_list (suc fuel) nil e envs = ok (nil, envs)
  eval_list (suc fuel) (cons first rest) e envs = eval fuel first e envs >>= λ (car, envs').
      eval_list fuel rest e envs' >>= λ (cdr, envs''). ok (cons car cdr, envs'')
  eval_list (suc fuel) _ e envs = fault
