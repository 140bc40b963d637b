-- ===== src/User/Lisp/Repl.antt =====
-- The loop of `_start` in user/src/lisp.c, for one line of input.
use foxtail.Common.{
  ℕ, Option, none, some, List, [], ◌∷◌, ◌++◌, Outcome, ok, ◌>>=◌, ◌==◌, ◌||◌, if◌then◌else◌,
}
use foxtail.KString.{list_eq}
use foxtail.User.Lisp.Values.{make_symbol, Entries, Envs, bind}
use foxtail.User.Lisp.Reader.{parse_expr}
use foxtail.User.Lisp.Printer.{print_val}
use foxtail.User.Lisp.Eval.{eval}

builtin_entry : Entries → ℕ → Entries
unfolding bind
builtin_entry entries c = bind entries (c ∷ []) (make_symbol (c ∷ []))

-- The global environment with the four built-in functions, which are symbols that name themselves.
unfoldable pub global_env : Envs
unfolding builtin_entry
global_env =
    let entries =
      builtin_entry (builtin_entry (builtin_entry (builtin_entry [] b'+') b'-') b'*') b'/' in
    record { entries = entries; parent = none } ∷ []

-- The bytes before the first newline or NUL.
unfoldable pub line_of : List ℕ → List ℕ
line_of [] = []
line_of (c ∷ input) = if c == 10 || c == 0 then [] else c ∷ line_of input

-- "exit"
abbrev pub exit_text : List ℕ
exit_text = b'e' ∷ b'x' ∷ b'i' ∷ b't' ∷ []

-- What is printed for a line, and the environments that it leaves; `none` ends the program.
unfoldable pub respond : ℕ → ℕ → Envs → List ℕ → Outcome (Option (List ℕ × Envs))
unfolding line_of parse_expr eval print_val
respond parse_fuel eval_fuel envs input =
    let line = line_of input in
    if list_eq line exit_text
    then ok none
    else parse_expr parse_fuel line >>= λ (expr, rest).
        eval eval_fuel expr 0 envs >>= λ (result, envs').
        ok (some (print_val result ++ 10 ∷ [], envs'))
