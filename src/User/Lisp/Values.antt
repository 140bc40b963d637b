-- ===== src/User/Lisp/Values.antt =====
-- Values and environments of user/src/lisp.c. Values are never changed once they are made, so a
-- pointer to one is the value. An environment is changed and shared, so it is an index of a list.
-- Memory is taken not to run out.
use foxtail.Common.{
  ℕ, zero, suc, Option, none, some, List, [], ◌∷◌, ◌++◌, take, get_elem?, set, length, Outcome, ok,
  fault, spin, ◌>>=◌, ltb, if◌then◌else◌,
}
use foxtail.KString.{list_eq}

-- An `int` is its 32 bits as a number, a symbol the bytes before its NUL.
pub data Value : Type 0 where
  int : ℕ → Value
  symbol : List ℕ → Value
  cons : Value → Value → Value
  func : Value → Value → ℕ → Value
  nil : Value

-- MAX_SYMBOL_LEN and MAX_ENV_SIZE
abbrev pub max_symbol_len : ℕ
max_symbol_len = 64

abbrev pub max_env_size : ℕ
max_env_size = 256

-- The text that fits beside a NUL.
abbrev pub make_symbol : List ℕ → Value
make_symbol s = symbol (take 63 s)

abbrev pub Entries : Type 0
Entries = List (List ℕ × Value)

-- `count` is the length of `entries`.
pub record Env : Type 0 where
  pub entries : Entries
  pub parent : Option ℕ

abbrev pub Envs : Type 0
Envs = List Env

abbrev pub env_at : Envs → ℕ → Outcome Env
env_at envs e = elim (get_elem? envs e) [ none ↦ fault | some env ↦ ok env ]

-- make_env: the new environment's index is the number of those that there are.
abbrev pub make_env : Envs → Option ℕ → Envs
make_env envs parent = envs ++ record { entries = []; parent = parent } ∷ []

-- The loop that looks for a binding to update; `none` where there is none.
unfoldable pub update : Entries → List ℕ → Value → Option Entries
update [] name value = none
update ((s, v) ∷ entries) name value =
    if list_eq s name
    then some ((s, value) ∷ entries)
    else elim (update entries name value) [ none ↦ none | some rest ↦ some ((s, v) ∷ rest) ]

-- A new binding is put behind the others; a full environment drops it.
unfoldable pub extend : Entries → List ℕ → Value → Option Entries → Entries
extend entries name value (some updated) = updated
extend entries name value none =
    if ltb (length entries) max_env_size then entries ++ (take 63 name, value) ∷ [] else entries

unfoldable pub bind : Entries → List ℕ → Value → Entries
unfolding extend update
bind entries name value = extend entries name value (update entries name value)

unfoldable pub env_set : Envs → ℕ → List ℕ → Value → Outcome Envs
unfolding bind
env_set envs e name value =
    env_at envs e >>= λ env. ok (set envs e (record env { entries = bind env.entries name value }))

unfoldable pub find : Entries → List ℕ → Option Value
find [] name = none
find ((s, v) ∷ entries) name = if list_eq s name then some v else find entries name

-- A name that is bound nowhere is nil. The fuel bounds the depth of the chain of parents.
unfoldable pub env_get : ℕ → Envs → ℕ → List ℕ → Outcome Value
env_get zero envs e name = spin
env_get (suc fuel) envs e name = env_at envs e >>= λ env. elim (find env.entries name) [
  | some v ↦ ok v
  | none ↦ elim env.parent [ none ↦ ok nil | some up ↦ env_get fuel envs up name ]
]
