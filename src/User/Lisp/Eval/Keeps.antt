-- ===== src/User/Lisp/Eval/Keeps.antt =====
-- The evaluator of user/src/lisp.c keeps environments and values free of dangling indices.
use foxtail.Common.{
  ℕ, zero, suc, ◌+◌, ◌≤◌, ◌<◌, ◌≡◌, refl, sym, ◌∙◌, subst, inl, inr, some, List, [], ◌∷◌, arith,
  length, length-append, ok, ◌>>=◌, >>=-eq-ok, ok_injective, Bool-cases,
}
use foxtail.KString.{list_eq}
use foxtail.User.Lisp.Values.{Value, int, symbol, cons, func, nil, Envs, make_env, env_set, env_get}
use foxtail.User.Lisp.Builtins.{
  builtin, builtin_add, builtin_sub, builtin_mul, builtin_div, first_num, div_all,
}
use foxtail.User.Lisp.Eval.{
  Result, car_of, cdr_of, symbol_of, is_form, define_text, lambda_text, eval_define, eval_lambda,
  bind_all, call, eval, eval_list,
}
use foxtail.User.Lisp.Eval.Scopes.{
  IsClosed, IsScoped, IsClosed-mono, env_set-IsScoped, make_env-IsScoped, env_get-IsClosed,
}

-- What evaluation from `envs` leaves: no environment is lost, and nothing dangles.
pub record Grown (envs envs' : Envs) (v : Value) : Type 0 where
  pub scoped : IsScoped (length envs') envs'
  pub longer : length envs ≤ length envs'
  pub closed : IsClosed (length envs') v

Keeps : (Value → ℕ → Envs → Result) → Type 0
Keeps ev =
    (expr : Value) (e : ℕ) (envs envs' : Envs) (v : Value)
    → IsScoped (length envs) envs
    → e < length envs
    → IsClosed (length envs) expr
    → ev expr e envs ≡ ok (v, envs')
    → Grown envs envs' v

unchanged :
    (envs envs' : Envs) (v w : Value)
    → IsScoped (length envs) envs
    → IsClosed (length envs) w
    → (let r : Result = ok (w, envs) in r) ≡ ok (v, envs')
    → Grown envs envs' v
unchanged envs envs' v w sc c run =
    let result = ok_injective run in
    subst (λ (x : Value × Envs). Grown envs x.1 x.0) result
      (record { scoped = sc; longer = omega arith; closed = c })

car-IsClosed : (n : ℕ) (v car : Value) → IsClosed n v → car_of v ≡ ok car → IsClosed n car
car-IsClosed n (cons a d) car (c, _) run = subst (IsClosed n) (ok_injective run) c
car-IsClosed n (int num) car c run = cc
car-IsClosed n _ car c run = cc

cdr-IsClosed : (n : ℕ) (v cdr : Value) → IsClosed n v → cdr_of v ≡ ok cdr → IsClosed n cdr
cdr-IsClosed n (cons a d) cdr (_, c) run = subst (IsClosed n) (ok_injective run) c
cdr-IsClosed n (int num) cdr c run = cc
cdr-IsClosed n _ cdr c run = cc

eval_define-Keeps : (ev : Value → ℕ → Envs → Result) → Keeps ev → Keeps (eval_define ev)
unfolding Keeps eval_define
eval_define-Keeps ev keeps args e envs envs' v sc lt c run =
    let (sym', _, run1) = >>=-eq-ok (car_of args) _ run in
    let (rest, r, run2) = >>=-eq-ok (cdr_of args) _ run1 in
    let (expr, x, run3) = >>=-eq-ok (car_of rest) _ run2 in
    let ((val, envs1), evaluated, run4) = >>=-eq-ok (ev expr e envs) _ run3 in
    let (name, _, run5) = >>=-eq-ok (symbol_of sym') _ run4 in
    let (envs2, stored, last) = >>=-eq-ok (env_set envs1 e name val) _ run5 in
    let closed_rest = cdr-IsClosed (length envs) args rest c r in
    let g =
      keeps expr e envs envs1 val sc lt (car-IsClosed (length envs) rest expr closed_rest x)
        evaluated in
    let (sc2, same) =
      env_set-IsScoped (length envs1) e envs1 envs2 name val g.scoped g.closed stored in
    subst (λ (y : Value × Envs). Grown envs y.1 y.0) (ok_injective last)
      (record {
        scoped = subst (λ n. IsScoped n envs2) (sym same) sc2;
        longer = omega (arith, same, g.longer);
        closed = subst (λ n. IsClosed n val) (sym same) g.closed;
      })

eval_lambda-Keeps : Keeps eval_lambda
unfolding Keeps eval_lambda
eval_lambda-Keeps args e envs envs' v sc lt c run =
    let (params, p, run1) = >>=-eq-ok (car_of args) _ run in
    let (rest, r, run2) = >>=-eq-ok (cdr_of args) _ run1 in
    let (body, b, last) = >>=-eq-ok (car_of rest) _ run2 in
    let closed_rest = cdr-IsClosed (length envs) args rest c r in
    unchanged envs envs' v (func params body e) sc
      (
        car-IsClosed (length envs) args params c p,
        car-IsClosed (length envs) rest body closed_rest b,
        lt,
      )
      last

-- A built-in function gives a number, or nil.
add-IsClosed : (n : ℕ) (args v : Value) → builtin_add args ≡ ok v → IsClosed n v
unfolding builtin_add
add-IsClosed n args v run = subst (IsClosed n) (ok_injective run) tt

mul-IsClosed : (n : ℕ) (args v : Value) → builtin_mul args ≡ ok v → IsClosed n v
unfolding builtin_mul
mul-IsClosed n args v run = subst (IsClosed n) (ok_injective run) tt

sub-IsClosed : (n : ℕ) (args v : Value) → builtin_sub args ≡ ok v → IsClosed n v
unfolding builtin_sub
sub-IsClosed n (cons first args) v run =
    let (num, _, last) = >>=-eq-ok (first_num first) _ run in
    subst (IsClosed n) (ok_injective last) tt
sub-IsClosed n nil v run = subst (IsClosed n) (ok_injective run) tt
sub-IsClosed n _ v run = subst (IsClosed n) (ok_injective run) tt

div-IsClosed : (n : ℕ) (args v : Value) → builtin_div args ≡ ok v → IsClosed n v
unfolding builtin_div
div-IsClosed n (cons first args) v run =
    let (num, _, run1) = >>=-eq-ok (first_num first) _ run in
    let (result, _, last) = >>=-eq-ok (div_all num args) _ run1 in
    subst (IsClosed n) (ok_injective last) tt
div-IsClosed n nil v run = subst (IsClosed n) (ok_injective run) tt
div-IsClosed n _ v run = subst (IsClosed n) (ok_injective run) tt

builtin-IsClosed :
    (n : ℕ) (name : List ℕ) (args v : Value) → builtin name args ≡ ok v → IsClosed n v
unfolding builtin
builtin-IsClosed n name args v run = elim (Bool-cases (list_eq name (b'+' ∷ []))) [
  | inl p ↦ add-IsClosed n args v (rw p at run)
  | inr p ↦ elim (Bool-cases (list_eq name (b'-' ∷ []))) [
    | inl q ↦ sub-IsClosed n args v (rw (p, q) at run)
    | inr q ↦ elim (Bool-cases (list_eq name (b'*' ∷ []))) [
      | inl r ↦ mul-IsClosed n args v (rw (p, q, r) at run)
      | inr r ↦ elim (Bool-cases (list_eq name (b'/' ∷ []))) [
        | inl t ↦ div-IsClosed n args v (rw (p, q, r, t) at run)
        | inr t ↦
            let last : ok nil ≡ ok v = rw (p, q, r, t) at run in
            subst (IsClosed n) (ok_injective last) tt
      ]
    ]
  ]
]

-- The binding of parameters keeps the number of environments.
bind_all-IsScoped :
    (n e : ℕ) (params args : Value) (envs envs' : Envs)
    → IsScoped n envs
    → IsClosed n args
    → bind_all params args e envs ≡ ok envs'
    → IsScoped n envs' × (length envs' ≡ length envs)
unfolding bind_all
bind_all-IsScoped n e (cons param params) (cons arg args) envs envs' sc (c, cs) run =
    let (name, _, run1) = >>=-eq-ok (symbol_of param) _ run in
    let (envs1, stored, last) = >>=-eq-ok (env_set envs e name arg) _ run1 in
    let (sc1, same) = env_set-IsScoped n e envs envs1 name arg sc c stored in
    let (sc2, same') = bind_all-IsScoped n e params args envs1 envs' sc1 cs last in
    (sc2, same' ∙ same)
bind_all-IsScoped n e (cons param params) _ envs envs' sc c run =
    subst (λ l. IsScoped n l × (length l ≡ length envs)) (ok_injective run) (sc, refl)
bind_all-IsScoped n e _ _ envs envs' sc c run =
    subst (λ l. IsScoped n l × (length l ≡ length envs)) (ok_injective run) (sc, refl)

module _ (ev ev_list : Value → ℕ → Envs → Result) (keeps : Keeps ev)
    (keeps_list : Keeps ev_list) where
  call-symbol :
      (name : List ℕ) (args : Value) (e : ℕ) (envs envs' : Envs) (v : Value)
      → IsScoped (length envs) envs
      → e < length envs
      → IsClosed (length envs) args
      → call ev ev_list (symbol name) args e envs ≡ ok (v, envs')
      → Grown envs envs' v
  unfolding Keeps call
  call-symbol name args e envs envs' v sc lt c run =
      let ((vals, envs1), evaluated, run1) = >>=-eq-ok (ev_list args e envs) _ run in
      let (val, applied, last) = >>=-eq-ok (builtin name vals) _ run1 in
      let g = keeps_list args e envs envs1 vals sc lt c evaluated in
      subst (λ (y : Value × Envs). Grown envs y.1 y.0) (ok_injective last)
        (record {
          scoped = g.scoped;
          longer = g.longer;
          closed = builtin-IsClosed (length envs1) name vals val applied;
        })

  call-func :
      (params body : Value) (closure : ℕ) (args : Value) (e : ℕ) (envs envs' : Envs) (v : Value)
      → IsScoped (length envs) envs
      → e < length envs
      → IsClosed (length envs) (func params body closure)
      → IsClosed (length envs) args
      → call ev ev_list (func params body closure) args e envs ≡ ok (v, envs')
      → Grown envs envs' v
  unfolding Keeps call
  call-func params body closure args e envs envs' v sc lt (_, cb, below) c run =
      let made : Envs = make_env envs (some closure) in
      let size : length made ≡ length envs + 1 =
        length-append envs (record { entries = []; parent = some closure } ∷ []) in
      let ((vals, envs1), evaluated, run1) = >>=-eq-ok (ev_list args e made) _ run in
      let (envs2, bound, last) = >>=-eq-ok (bind_all params vals (length envs) envs1) _ run1 in
      let g =
        keeps_list args e made envs1 vals (make_env-IsScoped envs closure sc below) (omega arith)
          (IsClosed-mono (length envs) (length made) args (omega arith) c) evaluated in
      let (sc2, same) =
        bind_all-IsScoped (length envs1) (length envs) params vals envs1 envs2 g.scoped g.closed
          bound in
      let g' =
        keeps body (length envs) envs2 envs' v (subst (λ n. IsScoped n envs2) (sym same) sc2)
          (omega (arith, same, g.longer))
          (IsClosed-mono (length envs) (length envs2) body (omega (arith, same, g.longer)) cb)
          last in
      record {
        scoped = g'.scoped;
        longer = omega (arith, same, g.longer, g'.longer);
        closed = g'.closed;
      }

  call-Keeps :
      (fun args : Value) (e : ℕ) (envs envs' : Envs) (v : Value)
      → IsScoped (length envs) envs
      → e < length envs
      → IsClosed (length envs) fun
      → IsClosed (length envs) args
      → call ev ev_list fun args e envs ≡ ok (v, envs')
      → Grown envs envs' v
  unfolding call
  call-Keeps (symbol name) args e envs envs' v sc lt cf c run =
      call-symbol name args e envs envs' v sc lt c run
  call-Keeps (func params body closure) args e envs envs' v sc lt cf c run =
      call-func params body closure args e envs envs' v sc lt cf c run
  call-Keeps (int num) args e envs envs' v sc lt cf c run = unchanged envs envs' v nil sc tt run
  call-Keeps _ args e envs envs' v sc lt cf c run = unchanged envs envs' v nil sc tt run

module _ (fuel : ℕ) (keeps : Keeps (eval fuel)) (keeps_list : Keeps (eval_list fuel)) where
  eval_cons-Keeps :
      (op args : Value) (e : ℕ) (envs envs' : Envs) (v : Value)
      → IsScoped (length envs) envs
      → e < length envs
      → IsClosed (length envs) (cons op args)
      → eval (suc fuel) (cons op args) e envs ≡ ok (v, envs')
      → Grown envs envs' v
  unfolding Keeps eval
  eval_cons-Keeps op args e envs envs' v sc lt (co, ca) run =
      elim (Bool-cases (is_form op define_text)) [
        | inl is ↦ eval_define-Keeps (eval fuel) keeps args e envs envs' v sc lt ca (rw is at run)
        | inr other ↦ elim (Bool-cases (is_form op lambda_text)) [
          | inl is ↦ eval_lambda-Keeps args e envs envs' v sc lt ca (rw (other, is) at run)
          | inr plain ↦ applied (rw (other, plain) at run)
        ]
      ]
    where
      applied :
          (eval fuel op e envs >>= λ (fun, envs1).
          call (eval fuel) (eval_list fuel) fun args e envs1)
            ≡ ok (v, envs')
          → Grown envs envs' v
      applied run' =
          let ((fun, envs1), evaluated, last) = >>=-eq-ok (eval fuel op e envs) _ run' in
          let g = keeps op e envs envs1 fun sc lt co evaluated in
          let g' =
            call-Keeps (eval fuel) (eval_list fuel) keeps keeps_list fun args e envs1 envs' v
              g.scoped (omega (arith, g.longer)) g.closed
              (IsClosed-mono (length envs) (length envs1) args g.longer ca) last in
          record {
            scoped = g'.scoped;
            longer = omega (arith, g.longer, g'.longer);
            closed = g'.closed;
          }

  eval_list_cons-Keeps :
      (first rest : Value) (e : ℕ) (envs envs' : Envs) (v : Value)
      → IsScoped (length envs) envs
      → e < length envs
      → IsClosed (length envs) (cons first rest)
      → eval_list (suc fuel) (cons first rest) e envs ≡ ok (v, envs')
      → Grown envs envs' v
  unfolding Keeps eval_list
  eval_list_cons-Keeps first rest e envs envs' v sc lt (cf, cr) run =
      let ((car, envs1), evaluated, run1) = >>=-eq-ok (eval fuel first e envs) _ run in
      let ((cdr, envs2), others, last) = >>=-eq-ok (eval_list fuel rest e envs1) _ run1 in
      let g = keeps first e envs envs1 car sc lt cf evaluated in
      let g' =
        keeps_list rest e envs1 envs2 cdr g.scoped (omega (arith, g.longer))
          (IsClosed-mono (length envs) (length envs1) rest g.longer cr) others in
      subst (λ (y : Value × Envs). Grown envs y.1 y.0) (ok_injective last)
        (record {
          scoped = g'.scoped;
          longer = omega (arith, g.longer, g'.longer);
          closed = (IsClosed-mono (length envs1) (length envs2) car g'.longer g.closed, g'.closed);
        })

both-Keep : (fuel : ℕ) → Keeps (eval fuel) × Keeps (eval_list fuel)
unfolding Keeps eval eval_list
both-Keep zero = ((λ expr e envs envs' v sc lt c run. cc), (λ expr e envs envs' v sc lt c run. cc))
both-Keep (suc fuel) =
    let (keeps, keeps_list) = both-Keep fuel in (value keeps keeps_list, list keeps keeps_list)
  where
    value : Keeps (eval fuel) → Keeps (eval_list fuel) → Keeps (eval (suc fuel))
    value keeps keeps_list (int num) e envs envs' v sc lt c run =
        unchanged envs envs' v (int num) sc tt run
    value keeps keeps_list (symbol s) e envs envs' v sc lt c run =
        let (w, found, last) = >>=-eq-ok (env_get (suc e) envs e s) _ run in
        unchanged envs envs' v w sc (env_get-IsClosed (length envs) (suc e) envs e s w sc found)
          last
    value keeps keeps_list nil e envs envs' v sc lt c run = unchanged envs envs' v nil sc tt run
    value keeps keeps_list (func params body closure) e envs envs' v sc lt c run =
        unchanged envs envs' v nil sc tt run
    value keeps keeps_list (cons op args) e envs envs' v sc lt c run =
        eval_cons-Keeps fuel keeps keeps_list op args e envs envs' v sc lt c run

    list : Keeps (eval fuel) → Keeps (eval_list fuel) → Keeps (eval_list (suc fuel))
    list keeps keeps_list nil e envs envs' v sc lt c run = unchanged envs envs' v nil sc tt run
    list keeps keeps_list (cons first rest) e envs envs' v sc lt c run =
        eval_list_cons-Keeps fuel keeps keeps_list first rest e envs envs' v sc lt c run
    list keeps keeps_list (int num) e envs envs' v sc lt c run = cc
    list keeps keeps_list (symbol s) e envs envs' v sc lt c run = cc
    list keeps keeps_list (func params body closure) e envs envs' v sc lt c run = cc

-- If every function in the expression and in the environments was made in an environment that there
-- is, and each environment's parent was made before it, then what evaluation returns is the same
-- again: no environment is lost, none has a parent that is not older, and the value's functions are
-- of environments that there are.
pub eval-Grown :
    (fuel : ℕ) (expr : Value) (e : ℕ) (envs envs' : Envs) (v : Value)
    → IsScoped (length envs) envs
    → e < length envs
    → IsClosed (length envs) expr
    → eval fuel expr e envs ≡ ok (v, envs')
    → Grown envs envs' v
unfolding Keeps
eval-Grown fuel expr e envs envs' v sc lt c run = (both-Keep fuel).0 expr e envs envs' v sc lt c run
