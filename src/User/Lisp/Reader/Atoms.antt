-- ===== src/User/Lisp/Reader/Atoms.antt =====
-- Numbers and symbols as user/src/lisp.c prints and reads them.
use foxtail.Common.{
  ℕ, zero, suc, ◌+◌, ◌-◌, ◌*◌, ◌%◌, ◌≤◌, ◌<◌, ◌≡◌, refl, sym, ap, ◌∙◌, subst, true, false, List, [],
  ◌∷◌, ◌++◌, append-nil, arith, length, take, ◌==◌, ◌||◌, Bool-cases, inl, inr,
}
use foxtail.User.Printf.{itoa}
use foxtail.User.Printf.Decimal.{value_of, IsDigits, Leads, itoa-Writes}
use foxtail.User.Lisp.Values.{int, symbol}
use foxtail.User.Lisp.Reader.{isdigit, ends_symbol, read_digits, read_symbol, read_int, read_atom}

-- The text ends, or goes on with a byte that ends a symbol.
abbrev pub Stops : List ℕ → Type 0
Stops [] = Unit {0}
Stops (c ∷ s) = ends_symbol c ≡ true

value_of-ge : (acc : ℕ) (s : List ℕ) → acc ≤ value_of acc s
value_of-ge acc [] = omega arith
value_of-ge acc (c ∷ s) = omega (arith, value_of-ge (10 * acc + (c - b'0')) s)

stop_digit : (c : ℕ) → ends_symbol c ≡ true → isdigit c ≡ false
stop_digit c h = ground arith

-- Digits that do not exceed 32 bits are read as the number that they write.
read_digits_lem :
    (num : ℕ) (s rest : List ℕ)
    → IsDigits s
    → Stops rest
    → value_of num s < 4294967296
    → read_digits num (s ++ rest) ≡ (value_of num s, rest)
unfolding read_digits
read_digits_lem num [] [] d stops small = refl
read_digits_lem num [] (c ∷ rest) d stops small = rw (stop_digit c stops) refl
read_digits_lem num (c ∷ s) rest (low, high, d) stops small =
    let is : isdigit c ≡ true = ground arith in
    let below = value_of-ge (10 * num + (c - b'0')) s in
    let next : (num * 10 + (c - b'0')) % 4294967296 ≡ 10 * num + (c - b'0') =
      omega (arith, below, small) in
    rw (is, next) (read_digits_lem (10 * num + (c - b'0')) s rest d stops small)

first_digit :
    (s : List ℕ) → Leads s → IsDigits s → (c : ℕ) × (t : List ℕ) × (s ≡ c ∷ t) × (isdigit c ≡ true)
first_digit [] leads d = absurd leads
first_digit (c ∷ t) leads (low, high, d) = (c, t, refl, ground arith)

-- The text of a number starts with a digit.
pub itoa-cons :
    (num : ℕ) → num < 2147483648 → (c : ℕ) × (s : List ℕ) × (itoa num ≡ c ∷ s) × (isdigit c ≡ true)
unfolding itoa
itoa-cons num small = elim (Bool-cases (num == 0)) [
  | inl is ↦ (b'0', [], rw is refl, refl)
  | inr more ↦
      let w = itoa-Writes num small in first_digit (itoa num) (w.leads (ground arith)) w.digits
]

-- A number that is not negative is read as itself.
pub read_atom-itoa :
    (num : ℕ) (rest : List ℕ)
    → num < 2147483648
    → Stops rest
    → read_atom (itoa num ++ rest) ≡ (int num, rest)
unfolding read_atom read_int read_digits
read_atom-itoa num rest small stops =
    let (c, s, text, is) = itoa-cons num small in
    let w = itoa-Writes num small in
    let value : value_of 0 (itoa num) ≡ num =
      ap (value_of 0) (sym (append-nil (itoa num))) ∙ w.value [] in
    let digits : read_digits 0 (itoa num ++ rest) ≡ (num, rest) =
      read_digits_lem 0 (itoa num) rest w.digits stops (omega (arith, value))
      ∙ ap (λ v. (v, rest)) value in
    let digits' : read_digits 0 (c ∷ (s ++ rest)) ≡ (num, rest) =
      subst (λ t. read_digits 0 (t ++ rest) ≡ (num, rest)) text digits in
    subst (λ t. read_atom (t ++ rest) ≡ (int num, rest)) (sym text) (first c s is digits')
  where
    first :
        (c : ℕ) (s : List ℕ)
        → isdigit c ≡ true
        → read_digits 0 (c ∷ (s ++ rest)) ≡ (num, rest)
        → read_atom (c ∷ (s ++ rest)) ≡ (int num, rest)
    first c s is run =
        let other : (c == b'`') ≡ false = ground arith in
        let rest_run : read_digits ((0 + (c - b'0')) % 4294967296) (s ++ rest) ≡ (num, rest) =
          rw is at run in
        rw (other, is, rest_run) refl

-- The bytes of a symbol that is read in one piece: none ends it, there are 63 at most, and the first
-- is not that of a number.
abbrev pub IsPlain : List ℕ → Type 0
IsPlain [] = Unit {0}
IsPlain (c ∷ s) = (ends_symbol c ≡ false) × IsPlain s

abbrev pub IsName : List ℕ → Type 0
IsName [] = ⊥
IsName (c ∷ s) = ((c == b'`' || isdigit c) ≡ false) × IsPlain (c ∷ s) × (length (c ∷ s) ≤ 63)

read_symbol_lem :
    (room : ℕ) (s rest : List ℕ)
    → IsPlain s
    → length s ≤ room
    → Stops rest
    → read_symbol room (s ++ rest) ≡ (s, rest)
unfolding read_symbol
read_symbol_lem zero [] rest plain fits stops = refl
read_symbol_lem zero (c ∷ s) rest plain fits stops = absurd (omega arith)
read_symbol_lem (suc room) [] [] plain fits stops = refl
read_symbol_lem (suc room) [] (c ∷ rest) plain fits stops = rw stops refl
read_symbol_lem (suc room) (c ∷ s) rest (other, plain) fits stops =
    rw (other, read_symbol_lem room s rest plain (omega arith) stops) refl

take_all : (n : ℕ) (s : List ℕ) → length s ≤ n → take n s ≡ s
take_all zero [] fits = refl
take_all zero (c ∷ s) fits = absurd (omega arith)
take_all (suc n) [] fits = refl
take_all (suc n) (c ∷ s) fits = ap (λ t. c ∷ t) (take_all n s (omega arith))

-- A symbol is read as itself.
pub read_atom-symbol :
    (s rest : List ℕ) → IsName s → Stops rest → read_atom (s ++ rest) ≡ (symbol s, rest)
unfolding read_atom
read_atom-symbol [] rest name stops = absurd name
read_atom-symbol (c ∷ s) rest (other, plain, fits) stops =
    rw (other, read_symbol_lem 63 (c ∷ s) rest plain fits stops)
      (ap (λ t. (symbol t, rest)) (take_all 63 (c ∷ s) fits))
