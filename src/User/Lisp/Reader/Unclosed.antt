-- ===== src/User/Lisp/Reader/Unclosed.antt =====
-- The parser of user/src/lisp.c on a list that is not closed.
use foxtail.Common.{
  ℕ, zero, suc, ◌+◌, ◌-◌, ◌*◌, ◌%◌, ◌≡◌, refl, ◌⊎◌, inl, inr, Bool, false, List, [], ◌∷◌, arith,
  Outcome, ok, spin, ◌==◌, ◌||◌, Bool-cases,
}
use foxtail.User.Lisp.Values.{Value}
use foxtail.User.Lisp.Reader.{
  parse_expr, parse_list, read_atom, read_int, read_digits, read_symbol, skip_whitespace, opens,
  closes, isspace, isdigit, ends_symbol, tail,
}

abbrev pub has_close : List ℕ → Bool
has_close [] = false
has_close (c ∷ s) = c == b')' || has_close s

behind : (c : ℕ) (s : List ℕ) → has_close (c ∷ s) ≡ false → has_close s ≡ false
behind c s h = ground arith

has_close-skip_whitespace :
    (s : List ℕ) → has_close s ≡ false → has_close (skip_whitespace s) ≡ false
unfolding skip_whitespace
has_close-skip_whitespace [] h = refl
has_close-skip_whitespace (c ∷ s) h = elim (Bool-cases (isspace c)) [
  | inl space ↦ rw space (has_close-skip_whitespace s (behind c s h))
  | inr other ↦ rw other h
]

has_close-read_digits :
    (num : ℕ) (s : List ℕ) → has_close s ≡ false → has_close (read_digits num s).1 ≡ false
unfolding read_digits
has_close-read_digits num [] h = refl
has_close-read_digits num (c ∷ s) h = elim (Bool-cases (isdigit c)) [
  | inl is ↦ rw is (has_close-read_digits ((num * 10 + (c - b'0')) % 4294967296) s (behind c s h))
  | inr other ↦ rw other h
]

has_close-read_symbol :
    (room : ℕ) (s : List ℕ) → has_close s ≡ false → has_close (read_symbol room s).1 ≡ false
unfolding read_symbol
has_close-read_symbol zero s h = h
has_close-read_symbol (suc room) [] h = refl
has_close-read_symbol (suc room) (c ∷ s) h = elim (Bool-cases (ends_symbol c)) [
  | inl ends ↦ rw ends h
  | inr goes_on ↦ rw goes_on (has_close-read_symbol room s (behind c s h))
]

has_close-read_int : (s : List ℕ) → has_close s ≡ false → has_close (read_int s).1 ≡ false
unfolding read_int
has_close-read_int [] h = refl
has_close-read_int (c ∷ s) h = elim (Bool-cases (c == b'`')) [
  | inl minus ↦ rw minus (has_close-read_digits 0 s (behind c s h))
  | inr plain ↦ rw plain (has_close-read_digits 0 (c ∷ s) h)
]

has_close-read_atom : (s : List ℕ) → has_close s ≡ false → has_close (read_atom s).1 ≡ false
unfolding read_atom
has_close-read_atom [] h = refl
has_close-read_atom (c ∷ s) h = elim (Bool-cases (c == b'`' || isdigit c)) [
  | inl number ↦ rw number (has_close-read_int (c ∷ s) h)
  | inr name ↦ rw name (has_close-read_symbol 63 (c ∷ s) h)
]

no_close-closes : (s : List ℕ) → has_close s ≡ false → closes s ≡ false
unfolding closes
no_close-closes [] h = refl
no_close-closes (c ∷ s) h = ground arith

has_close-tail : (s : List ℕ) → has_close s ≡ false → has_close (tail s) ≡ false
has_close-tail [] h = refl
has_close-tail (c ∷ s) h = behind c s h

-- What becomes of an expression in a text that closes no list.
Unclosed : Outcome (Value × List ℕ) → Type 0
Unclosed o =
    (o ≡ spin) ⊎ ((v : Value) × (rest : List ℕ) × (o ≡ ok (v, rest)) × (has_close rest ≡ false))

list-Unclosed :
    (fuel : ℕ) (s : List ℕ)
    → ((t : List ℕ) → has_close t ≡ false → Unclosed (parse_expr fuel t))
    → ((t : List ℕ) → has_close t ≡ false → parse_list fuel t ≡ spin)
    → has_close s ≡ false
    → parse_list (suc fuel) s ≡ spin
unfolding parse_list Unclosed
list-Unclosed fuel s expr list h =
    let text = skip_whitespace s in
    let h' = has_close-skip_whitespace s h in
    let open_end = no_close-closes text h' in
    elim (expr text h') [
      | inl runs ↦ rw (open_end, runs) refl
      | inr (v, rest, run, h'') ↦ rw (open_end, run, list rest h'') refl
    ]

expr-Unclosed :
    (fuel : ℕ) (s : List ℕ)
    → ((t : List ℕ) → has_close t ≡ false → parse_list fuel t ≡ spin)
    → has_close s ≡ false
    → Unclosed (parse_expr (suc fuel) s)
unfolding parse_expr Unclosed
expr-Unclosed fuel s list h =
    let text = skip_whitespace s in
    let h' = has_close-skip_whitespace s h in
    elim (Bool-cases (opens text)) [
      | inl is ↦ inl (rw (is, list (tail text) (has_close-tail text h')) refl)
      | inr other ↦
          inr ((read_atom text).0, (read_atom text).1, rw other refl, has_close-read_atom text h')
    ]

unclosed :
    (fuel : ℕ)
    → ((s : List ℕ) → has_close s ≡ false → Unclosed (parse_expr fuel s))
      × ((s : List ℕ) → has_close s ≡ false → parse_list fuel s ≡ spin)
unfolding parse_expr parse_list Unclosed
unclosed zero = ((λ s h. inl refl), (λ s h. refl))
unclosed (suc fuel) =
    let (expr, list) = unclosed fuel in
    ((λ s h. expr-Unclosed fuel s list h), (λ s h. list-Unclosed fuel s expr list h))

-- On a text that starts with an opening parenthesis and has no closing one, the parser never
-- returns: whatever the fuel, it is used up.
pub parse_expr-unclosed :
    (fuel : ℕ) (s : List ℕ) → has_close s ≡ false → parse_expr fuel (b'(' ∷ s) ≡ spin
unfolding parse_expr skip_whitespace opens
parse_expr-unclosed zero s h = refl
parse_expr-unclosed (suc fuel) s h = (unclosed fuel).1 s h
