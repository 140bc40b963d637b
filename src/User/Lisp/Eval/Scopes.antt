-- ===== src/User/Lisp/Eval/Scopes.antt =====
-- The environments of user/src/lisp.c: which values and tables hold no dangling index.
use foxtail.Common.{
  ℕ, zero, suc, ◌+◌, ◌≤◌, ◌<◌, ◌≡◌, refl, sym, ap, ◌∙◌, subst, ◌⊎◌, inl, inr, Option, none, some,
  List, [], ◌∷◌, ◌++◌, arith, length, get_elem?, set, length-set, length-append, ok, >>=-eq-ok,
  ok_injective, some_injective, ltb, if◌then◌else◌, Bool-cases, Option-cases, take,
}
use foxtail.KString.{list_eq}
use foxtail.User.Lisp.Values.{
  Value, int, symbol, cons, func, nil, Entries, Env, Envs, env_at, make_env, update, extend, bind,
  env_set, find, env_get, max_env_size,
}

-- Each function in the value was made in one of the first `n` environments.
abbrev pub IsClosed : ℕ → Value → Type 0
IsClosed n (int num) = Unit {0}
IsClosed n (symbol s) = Unit {0}
IsClosed n (cons car cdr) = IsClosed n car × IsClosed n cdr
IsClosed n (func params body closure) = IsClosed n params × IsClosed n body × (closure < n)
IsClosed n nil = Unit {0}

abbrev pub AllClosed : ℕ → Entries → Type 0
AllClosed n [] = Unit {0}
AllClosed n ((s, v) ∷ entries) = IsClosed n v × AllClosed n entries

-- The parent of environment `e` was made before it.
abbrev pub IsBelow : ℕ → Option ℕ → Type 0
IsBelow e none = Unit {0}
IsBelow e (some up) = up < e

pub record IsScoped (n : ℕ) (envs : Envs) : Type 0 where
  pub entries : (e : ℕ) (env : Env) → get_elem? envs e ≡ some env → AllClosed n env.entries
  pub parents : (e : ℕ) (env : Env) → get_elem? envs e ≡ some env → IsBelow e env.parent

pub IsClosed-mono : (n m : ℕ) (v : Value) → n ≤ m → IsClosed n v → IsClosed m v
IsClosed-mono n m (int num) le c = tt
IsClosed-mono n m (symbol s) le c = tt
IsClosed-mono n m (cons car cdr) le (c, d) =
    (IsClosed-mono n m car le c, IsClosed-mono n m cdr le d)
IsClosed-mono n m (func params body closure) le (c, d, lt) =
    (IsClosed-mono n m params le c, IsClosed-mono n m body le d, omega arith)
IsClosed-mono n m nil le c = tt

AllClosed-mono : (n m : ℕ) (entries : Entries) → n ≤ m → AllClosed n entries → AllClosed m entries
AllClosed-mono n m [] le c = tt
AllClosed-mono n m ((s, v) ∷ entries) le (c, cs) =
    (IsClosed-mono n m v le c, AllClosed-mono n m entries le cs)

IsScoped-mono : (n m : ℕ) (envs : Envs) → n ≤ m → IsScoped n envs → IsScoped m envs
IsScoped-mono n m envs le sc = record {
  entries = λ e env at. AllClosed-mono n m env.entries le (sc.entries e env at);
  parents = sc.parents;
}

update-AllClosed :
    (n : ℕ) (entries updated : Entries) (name : List ℕ) (v : Value)
    → AllClosed n entries
    → IsClosed n v
    → update entries name v ≡ some updated
    → AllClosed n updated
unfolding update
update-AllClosed n [] updated name v cs c run = cc
update-AllClosed n ((s, old) ∷ entries) updated name v (c', cs) c run =
    elim (Bool-cases (list_eq s name)) [
      | inl same ↦
          let e : some ((s, v) ∷ entries) ≡ some updated = ground arith in
          subst (AllClosed n) (some_injective e) (c, cs)
      | inr other ↦ elim (Option-cases (update entries name v)) [
        | inl absent ↦ absurd (ground arith)
        | inr (rest, found) ↦
            let ih = update-AllClosed n entries rest name v cs c found in
            let e : some ((s, old) ∷ rest) ≡ some updated = ground arith in
            subst (AllClosed n) (some_injective e) (c', ih)
      ]
    ]

append-AllClosed :
    (n : ℕ) (entries : Entries) (name : List ℕ) (v : Value)
    → AllClosed n entries
    → IsClosed n v
    → AllClosed n (entries ++ (name, v) ∷ [])
append-AllClosed n [] name v cs c = (c, tt)
append-AllClosed n ((s, old) ∷ entries) name v (c', cs) c =
    (c', append-AllClosed n entries name v cs c)

bind-AllClosed :
    (n : ℕ) (entries : Entries) (name : List ℕ) (v : Value)
    → AllClosed n entries
    → IsClosed n v
    → AllClosed n (bind entries name v)
unfolding bind extend
bind-AllClosed n entries name v cs c = elim (Option-cases (update entries name v)) [
  | inl absent ↦ elim (Bool-cases (ltb (length entries) max_env_size)) [
    | inl room ↦
        subst (AllClosed n)
          (sym (
            ap (extend entries name v) absent
            ∙ ap (λ b. if b then entries ++ (take 63 name, v) ∷ [] else entries) room))
          (append-AllClosed n entries (take 63 name) v cs c)
    | inr full ↦
        subst (AllClosed n)
          (sym (
            ap (extend entries name v) absent
            ∙ ap (λ b. if b then entries ++ (take 63 name, v) ∷ [] else entries) full))
          cs
  ]
  | inr (updated, found) ↦
      subst (AllClosed n) (sym (ap (extend entries name v) found))
        (update-AllClosed n entries updated name v cs c found)
]

-- Where an element of a list with one write comes from.
get_elem?-set-cases {ℓ} :
    {A : Type ℓ} (xs : List A) (i j : ℕ) (v a : A)
    → get_elem? (set xs i v) j ≡ some a
    → ((i ≡ j) × (a ≡ v)) ⊎ (get_elem? xs j ≡ some a)
get_elem?-set-cases [] i j v a at = inr at
get_elem?-set-cases (x ∷ xs) zero zero v a at = inl (refl, some_injective (sym at))
get_elem?-set-cases (x ∷ xs) zero (suc j) v a at = inr at
get_elem?-set-cases (x ∷ xs) (suc i) zero v a at = inr at
get_elem?-set-cases (x ∷ xs) (suc i) (suc j) v a at = elim (get_elem?-set-cases xs i j v a at) [
  | inl (e, same) ↦ inl (ap suc e, same)
  | inr old ↦ inr old
]

-- Where an element of a list with one more at the end comes from.
get_elem?-append-cases {ℓ} :
    {A : Type ℓ} (xs : List A) (x a : A) (j : ℕ)
    → get_elem? (xs ++ x ∷ []) j ≡ some a
    → (get_elem? xs j ≡ some a) ⊎ ((j ≡ length xs) × (a ≡ x))
get_elem?-append-cases [] x a zero at = inr (refl, some_injective (sym at))
get_elem?-append-cases [] x a (suc j) at = cc
get_elem?-append-cases (y ∷ xs) x a zero at = inl at
get_elem?-append-cases (y ∷ xs) x a (suc j) at = elim (get_elem?-append-cases xs x a j at) [
  | inl old ↦ inl old
  | inr (e, same) ↦ inr (ap suc e, same)
]

pub env_set-IsScoped :
    (n e : ℕ) (envs envs' : Envs) (name : List ℕ) (v : Value)
    → IsScoped n envs
    → IsClosed n v
    → env_set envs e name v ≡ ok envs'
    → IsScoped n envs' × (length envs' ≡ length envs)
unfolding env_set
env_set-IsScoped n e envs envs' name v sc c run =
    let (env, found, last) = >>=-eq-ok (env_at envs e) _ run in
    let at : get_elem? envs e ≡ some env = ground arith in
    let new : Env = record env { entries = bind env.entries name v } in
    subst (λ l. IsScoped n l × (length l ≡ length envs)) (ok_injective last)
      (
        record {
          entries = λ j x there. elim (get_elem?-set-cases envs e j new x there) [
            | inl (same, is) ↦
                subst (λ (y : Env). AllClosed n y.entries) (sym is)
                  (bind-AllClosed n env.entries name v (sc.entries e env at) c)
            | inr old ↦ sc.entries j x old
          ];
          parents = λ j x there. elim (get_elem?-set-cases envs e j new x there) [
            | inl (same, is) ↦
                subst (λ (y : Env). IsBelow j y.parent) (sym is)
                  (subst (λ i. IsBelow i env.parent) same (sc.parents e env at))
            | inr old ↦ sc.parents j x old
          ];
        },
        length-set envs e new,
      )

pub make_env-IsScoped :
    (envs : Envs) (up : ℕ)
    → IsScoped (length envs) envs
    → up < length envs
    → IsScoped (length (make_env envs (some up))) (make_env envs (some up))
make_env-IsScoped envs up sc lt = record {
  entries = λ j x there. elim (get_elem?-append-cases envs new x j there) [
    | inl old ↦
        AllClosed-mono (length envs) (length (make_env envs (some up))) x.entries
          (omega (arith, size)) (sc.entries j x old)
    | inr (last, is) ↦
        subst (λ (y : Env). AllClosed (length (make_env envs (some up))) y.entries) (sym is) tt
  ];
  parents = λ j x there. elim (get_elem?-append-cases envs new x j there) [
    | inl old ↦ sc.parents j x old
    | inr (last, is) ↦
        let below : up < j = omega arith in subst (λ (y : Env). IsBelow j y.parent) (sym is) below
  ];
}
  where
    new : Env
    new = record { entries = []; parent = some up }

    size : length (make_env envs (some up)) ≡ length envs + 1
    size = length-append envs (new ∷ [])

find-IsClosed :
    (n : ℕ) (entries : Entries) (name : List ℕ) (v : Value)
    → AllClosed n entries
    → find entries name ≡ some v
    → IsClosed n v
unfolding find
find-IsClosed n [] name v cs run = cc
find-IsClosed n ((s, old) ∷ entries) name v (c, cs) run = elim (Bool-cases (list_eq s name)) [
  | inl same ↦ let e : some old ≡ some v = ground arith in subst (IsClosed n) (some_injective e) c
  | inr other ↦ find-IsClosed n entries name v cs (ground arith)
]

pub env_get-IsClosed :
    (n fuel : ℕ) (envs : Envs) (e : ℕ) (name : List ℕ) (v : Value)
    → IsScoped n envs
    → env_get fuel envs e name ≡ ok v
    → IsClosed n v
unfolding env_get
env_get-IsClosed n zero envs e name v sc run = cc
env_get-IsClosed n (suc fuel) envs e name v sc run =
    let (env, found, last) = >>=-eq-ok (env_at envs e) _ run in
    let at : get_elem? envs e ≡ some env = ground arith in
    elim (Option-cases (find env.entries name)) [
      | inr (w, bound) ↦
          let same : ok w ≡ ok v = ground arith in
          subst (IsClosed n) (ok_injective same)
            (find-IsClosed n env.entries name w (sc.entries e env at) bound)
      | inl absent ↦ elim (Option-cases env.parent) [
        | inl top ↦
            let same : ok nil ≡ ok v = ground arith in subst (IsClosed n) (ok_injective same) tt
        | inr (up, some_parent) ↦ env_get-IsClosed n fuel envs up name v sc (ground arith)
      ]
    ]
