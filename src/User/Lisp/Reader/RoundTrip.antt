-- ===== src/User/Lisp/Reader/RoundTrip.antt =====
-- The parser against the printer of user/src/lisp.c.
use foxtail.Common.{
  ℕ, zero, suc, ◌+◌, ◌≤◌, ◌<◌, ◌≡◌, refl, sym, ap, ◌∙◌, subst, false, List, [], ◌∷◌, ◌++◌,
  append_assoc, arith, ok, ◌==◌,
}
use foxtail.User.Printf.{itoa}
use foxtail.User.Lisp.Values.{Value, int, symbol, cons, func, nil}
use foxtail.User.Lisp.Printer.{print_val, print_tail}
use foxtail.User.Lisp.Reader.{
  parse_expr, parse_list, read_atom, skip_whitespace, opens, closes, isspace,
}
use foxtail.User.Lisp.Reader.Atoms.{Stops, IsName, itoa-cons, read_atom-itoa, read_atom-symbol}

-- What is read as it is printed: numbers that are not negative, symbols, and lists of these with at
-- least one element. The empty list is printed as a symbol.
abbrev mutual
  pub IsReadable : Value → Type 0
  IsReadable (int num) = num < 2147483648
  IsReadable (symbol s) = IsName s
  IsReadable (cons car cdr) = IsReadable car × IsReadableTail cdr
  IsReadable (func params body closure) = ⊥
  IsReadable nil = ⊥

  pub IsReadableTail : Value → Type 0
  IsReadableTail (cons car cdr) = IsReadable car × IsReadableTail cdr
  IsReadableTail nil = Unit {0}
  IsReadableTail _ = ⊥

-- The calls of the parser that a value takes.
abbrev pub calls : Value → ℕ
calls (cons car cdr) = 2 + calls car + calls cdr
calls _ = 1

-- How the text of a value starts.
record Starts (s : List ℕ) : Type 0 where
  head : ℕ
  rest : List ℕ
  text : s ≡ head ∷ rest
  no_space : isspace head ≡ false
  no_close : (head == b')') ≡ false

print_val-Starts : (v : Value) → IsReadable v → Starts (print_val v)
unfolding print_val
print_val-Starts (int num) r =
    let (c, s, text, is) = itoa-cons num r in
    record { head = c; rest = s; text = text; no_space = ground arith; no_close = ground arith }
print_val-Starts (symbol []) r = absurd r
print_val-Starts (symbol (c ∷ s)) (number, (plain, _), fits) = record {
  head = c;
  rest = s;
  text = refl;
  no_space = ground arith;
  no_close = ground arith;
}
print_val-Starts (cons car cdr) r = record {
  head = b'(';
  rest = _;
  text = refl;
  no_space = refl;
  no_close = refl;
}
print_val-Starts (func params body closure) r = absurd r
print_val-Starts nil r = absurd r

-- A text that starts with a value's is left alone by the skipping, and closes no list.
skip-Starts :
    (s t : List ℕ) → Starts s → (skip_whitespace (s ++ t) ≡ s ++ t) × (closes (s ++ t) ≡ false)
unfolding skip_whitespace closes
skip-Starts s t st =
    let no_space = st.no_space in
    let no_close = st.no_close in rw st.text (rw no_space refl, no_close)

-- What follows an element of a list ends a symbol.
Stops-tail : (d : Value) (rest : List ℕ) → IsReadableTail d → Stops (print_tail d ++ b')' ∷ rest)
unfolding print_tail
Stops-tail (cons car cdr) rest r = refl
Stops-tail nil rest r = refl
Stops-tail (int num) rest r = absurd r
Stops-tail (symbol s) rest r = absurd r
Stops-tail (func params body closure) rest r = absurd r

-- An atom's text is read in one call.
parse_expr-atom :
    (fuel : ℕ) (s t : List ℕ) (v : Value)
    → Starts s
    → opens (s ++ t) ≡ false
    → read_atom (s ++ t) ≡ (v, t)
    → parse_expr (suc fuel) (s ++ t) ≡ ok (v, t)
unfolding parse_expr
parse_expr-atom fuel s t v st no_open run = rw ((skip-Starts s t st).0, no_open, run) refl

-- An element and what follows it.
parse_list-cons :
    (fuel : ℕ) (s t rest : List ℕ) (a d : Value)
    → Starts s
    → parse_expr fuel (s ++ t) ≡ ok (a, t)
    → parse_list fuel t ≡ ok (d, rest)
    → parse_list (suc fuel) (s ++ t) ≡ ok (cons a d, rest)
unfolding parse_list
parse_list-cons fuel s t rest a d st first next =
    rw ((skip-Starts s t st).0, (skip-Starts s t st).1, first, next) refl

-- A value, and the tail of a list, are read from their texts with enough fuel.
ReadBack : Value → Type 0
ReadBack v =
    (fuel : ℕ) (rest : List ℕ)
    → IsReadable v
    → calls v ≤ fuel
    → Stops rest
    → parse_expr fuel (print_val v ++ rest) ≡ ok (v, rest)

TailReadBack : Value → Type 0
TailReadBack d =
    (fuel : ℕ) (rest : List ℕ)
    → IsReadableTail d
    → calls d ≤ fuel
    → parse_list fuel (print_tail d ++ b')' ∷ rest) ≡ ok (d, rest)

-- The elements of a list, of which the first is `car`.
elements :
    (fuel : ℕ) (car cdr : Value) (rest : List ℕ)
    → ReadBack car
    → TailReadBack cdr
    → IsReadable car
    → IsReadableTail cdr
    → calls car ≤ fuel
    → calls cdr ≤ fuel
    → parse_list (suc fuel) (print_val car ++ (print_tail cdr ++ b')' ∷ rest))
      ≡ ok (cons car cdr, rest)
unfolding ReadBack TailReadBack
elements fuel car cdr rest back tail_back r rs enough enough' =
    let t = print_tail cdr ++ b')' ∷ rest in
    parse_list-cons fuel (print_val car) t rest car cdr (print_val-Starts car r)
      (back fuel t r enough (Stops-tail cdr rest rs)) (tail_back fuel rest rs enough')

int-ReadBack : (num : ℕ) → ReadBack (int num)
unfolding ReadBack print_val opens
int-ReadBack num zero rest r enough stops = absurd (omega arith)
int-ReadBack num (suc fuel) rest r enough stops =
    let (c, s, text, is) = itoa-cons num r in
    let plain : (c == b'(') ≡ false = ground arith in
    let no_open : opens (itoa num ++ rest) ≡ false =
      subst (λ t. opens (t ++ rest) ≡ false) (sym text) plain in
    parse_expr-atom fuel (itoa num) rest (int num) (print_val-Starts (int num) r) no_open
      (read_atom-itoa num rest r stops)

symbol-ReadBack : (s : List ℕ) → ReadBack (symbol s)
unfolding ReadBack print_val opens
symbol-ReadBack s zero rest r enough stops = absurd (omega arith)
symbol-ReadBack [] (suc fuel) rest r enough stops = absurd r
symbol-ReadBack (c ∷ s) (suc fuel) rest r enough stops =
    let (number, (plain, _), fits) = r in
    let no_open : (c == b'(') ≡ false = ground arith in
    parse_expr-atom fuel (c ∷ s) rest (symbol (c ∷ s)) (print_val-Starts (symbol (c ∷ s)) r) no_open
      (read_atom-symbol (c ∷ s) rest r stops)

nil-TailReadBack : TailReadBack nil
unfolding TailReadBack print_tail parse_list
nil-TailReadBack zero rest r enough = absurd (omega arith)
nil-TailReadBack (suc fuel) rest r enough = refl

module _ (car cdr : Value) (back : ReadBack car) (tail_back : TailReadBack cdr) where
  cons-ReadBack : ReadBack (cons car cdr)
  unfolding ReadBack print_val parse_expr opens skip_whitespace
  cons-ReadBack zero rest r enough stops = absurd (omega arith)
  cons-ReadBack (suc zero) rest r enough stops = absurd (omega arith)
  cons-ReadBack (suc (suc fuel)) rest (r, rs) enough stops =
      ap (λ t. parse_list (suc fuel) t)
        (append_assoc (print_val car) (print_tail cdr ++ b')' ∷ []) rest
          ∙ ap (λ t. print_val car ++ t) (append_assoc (print_tail cdr) (b')' ∷ []) rest))
      ∙ elements fuel car cdr rest back tail_back r rs (omega arith) (omega arith)

  cons-TailReadBack : TailReadBack (cons car cdr)
  unfolding TailReadBack print_tail parse_list closes skip_whitespace
  cons-TailReadBack zero rest r enough = absurd (omega arith)
  cons-TailReadBack (suc fuel) rest (r, rs) enough =
      ap (λ t. parse_list (suc fuel) t)
        (append_assoc (print_val car) (print_tail cdr) (b')' ∷ rest))
      ∙ elements fuel car cdr rest back tail_back r rs (omega arith) (omega arith)

read_back : (v : Value) → ReadBack v × TailReadBack v
unfolding ReadBack TailReadBack
read_back (int num) = (int-ReadBack num, λ fuel rest r enough. absurd r)
read_back (symbol s) = (symbol-ReadBack s, λ fuel rest r enough. absurd r)
read_back (func params body closure) =
    ((λ fuel rest r enough stops. absurd r), (λ fuel rest r enough. absurd r))
read_back nil = ((λ fuel rest r enough stops. absurd r), nil-TailReadBack)
read_back (cons car cdr) =
    let (back, _) = read_back car in
    let (_, tail_back) = read_back cdr in
    (cons-ReadBack car cdr back tail_back, cons-TailReadBack car cdr back tail_back)

-- The parser returns on the text that is printed for a value, with one call for each atom and two
-- for each pair at most, and gives the value back together with the text behind it. The value's
-- numbers are not negative, its symbols have 1 to 63 bytes that do not end a symbol and do not start
-- like a number, and its lists are proper and not empty; the text behind an atom ends it.
pub parse_expr-print_val :
    (fuel : ℕ) (v : Value) (rest : List ℕ)
    → IsReadable v
    → Stops rest
    → calls v ≤ fuel
    → parse_expr fuel (print_val v ++ rest) ≡ ok (v, rest)
unfolding ReadBack
parse_expr-print_val fuel v rest r stops enough = (read_back v).0 fuel rest r enough stops
