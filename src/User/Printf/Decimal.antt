-- ===== src/User/Printf/Decimal.antt =====
-- itoa of user/include/printf.h.
use mathlib.Core.List.{reverse, reverse-cons}
use foxtail.Common.{
  ℕ, zero, suc, ◌+◌, ◌-◌, ◌*◌, ◌/◌, ◌%◌, ◌^◌, ◌≤◌, ◌<◌, ◌≡◌, ◌≢◌, refl, sym, ap, ◌∙◌, subst, false,
  List, [], ◌∷◌, ◌++◌, append_assoc, arith, ◌==◌, ◌⊎◌, Bool-cases, inl, inr,
}
use native.Mathlib.Nat.{pow-suc}
use foxtail.User.Printf.{low_digits, itoa, is_negative}

-- The number that decimal digits write, behind digits of value `acc`.
abbrev pub value_of : ℕ → List ℕ → ℕ
value_of acc [] = acc
value_of acc (c ∷ s) = value_of (10 * acc + (c - b'0')) s

abbrev pub IsDigits : List ℕ → Type 0
IsDigits [] = Unit {0}
IsDigits (c ∷ s) = (b'0' ≤ c) × (c ≤ b'9') × IsDigits s

-- There is a first digit, and it is not zero.
abbrev pub Leads : List ℕ → Type 0
Leads [] = ⊥
Leads (c ∷ s) = c ≢ b'0'

IsDigits-append : (s t : List ℕ) → IsDigits s → IsDigits t → IsDigits (s ++ t)
IsDigits-append [] t p q = q
IsDigits-append (c ∷ s) t (low, high, p) q = (low, high, IsDigits-append s t p q)

Leads-append : (s t : List ℕ) → Leads s → Leads (s ++ t)
Leads-append [] t p = absurd p
Leads-append (c ∷ s) t p = p

-- One digit more: `num` is not zero.
reverse-low_digits :
    (rounds num : ℕ)
    → num ≢ 0
    → reverse (low_digits (suc rounds) num)
      ≡ reverse (low_digits rounds (num / 10)) ++ (b'0' + num % 10) ∷ []
unfolding low_digits
reverse-low_digits rounds num some_num =
    let e : (num == 0) ≡ false = ground arith in
    rw e (reverse-cons (b'0' + num % 10) (low_digits rounds (num / 10)))

low_digits-zero : (rounds : ℕ) → low_digits rounds 0 ≡ []
unfolding low_digits
low_digits-zero zero = refl
low_digits-zero (suc rounds) = refl

-- What the digits of `num` are in the order in which they are written.
pub record Writes (num : ℕ) (s : List ℕ) : Type 0 where
  pub digits : IsDigits s
  pub value : (rest : List ℕ) → value_of 0 (s ++ rest) ≡ value_of num rest
  pub leads : num ≢ 0 → Leads s

one_more :
    (num : ℕ) (s : List ℕ)
    → num ≢ 0
    → Writes (num / 10) s
    → (num / 10 ≡ 0 → s ≡ [])
    → Writes num (s ++ (b'0' + num % 10) ∷ [])
one_more num s some_num w none = record {
  digits = IsDigits-append s ((b'0' + num % 10) ∷ []) w.digits (omega arith, omega arith, tt);
  value = λ rest.
      ap (value_of 0) (append_assoc s ((b'0' + num % 10) ∷ []) rest)
      ∙ w.value ((b'0' + num % 10) ∷ rest)
      ∙ ap (λ v. value_of v rest) (omega arith);
  leads = λ h. elim (Bool-cases (num / 10 == 0)) [
    | inl small ↦
        let low : num / 10 ≡ 0 = ground arith in
        let first : b'0' + num % 10 ≢ b'0' = omega arith in
        subst (λ t. Leads (t ++ (b'0' + num % 10) ∷ [])) (sym (none low)) first
    | inr large ↦
        let high : num / 10 ≢ 0 = ground arith in
        Leads-append s ((b'0' + num % 10) ∷ []) (w.leads high)
  ];
}

reverse-low_digits-Writes :
    (rounds num : ℕ) → num < 10 ^ rounds → Writes num (reverse (low_digits rounds num))
unfolding low_digits
reverse-low_digits-Writes zero num small =
    let none : num ≡ 0 = omega arith in
    record {
      digits = tt;
      value = λ rest. ap (λ v. value_of v rest) (sym none);
      leads = λ h. absurd (h none);
    }
reverse-low_digits-Writes (suc rounds) num small = elim (Bool-cases (num == 0)) [
  | inl is ↦
      let none : num ≡ 0 = ground arith in
      rw is (record {
        digits = tt;
        value = λ rest. ap (λ v. value_of v rest) (sym none);
        leads = λ h. absurd (h none);
      })
  | inr more ↦
      let some_num : num ≢ 0 = ground arith in
      subst (Writes num) (sym (reverse-low_digits rounds num some_num)) (
        one_more num (reverse (low_digits rounds (num / 10))) some_num
          (reverse-low_digits-Writes rounds (num / 10) (omega (arith, pow-suc 10 rounds)))
          (λ e. ap (λ v. reverse (low_digits rounds v)) e ∙ ap reverse (low_digits-zero rounds)))
]

-- For a number that is not negative, itoa writes its decimal digits without a leading zero.
pub itoa-Writes : (num : ℕ) → num < 2147483648 → Writes num (itoa num)
unfolding itoa
itoa-Writes num small = elim (Bool-cases (num == 0)) [
  | inl is ↦
      let none : num ≡ 0 = ground arith in
      rw is (record {
        digits = (omega arith, omega arith, tt);
        value = λ rest. ap (λ v. value_of v rest) (sym none);
        leads = λ h. absurd (h none);
      })
  | inr more ↦
      let plain : is_negative num ≡ false = ground arith in
      rw (more, plain) (reverse-low_digits-Writes 10 num (omega arith))
]

-- A decimal number as it is written: digits with the value `num`, and no leading zero but in 0.
pub record IsDecimal (num : ℕ) (s : List ℕ) : Type 0 where
  pub digits : IsDigits s
  pub value : (rest : List ℕ) → value_of 0 (s ++ rest) ≡ value_of num rest
  pub canonical : ((num ≡ 0) × (s ≡ b'0' ∷ [])) ⊎ Leads s
