-- ===== src/Console/Numbers/Digits.antt =====
-- The first loop of kprint_uint32_dec in kernel/src/kprintf.c.
use foxtail.Common.{
  ℕ, zero, suc, ◌+◌, ◌-◌, ◌*◌, ◌/◌, ◌%◌, ◌≤◌, ◌<◌, ◌≡◌, ◌≢◌, ◌⊎◌, refl, sym, ap, ◌∙◌, inl, inr,
  arith, Mem, store, store_self, ◌==◌, Bool-cases, add-zero,
}
use foxtail.Console.Numbers.{digits_loop}

-- The value of the `n` digits from `p` on, the highest last, behind digits of value `acc`.
abbrev pub value_up : ℕ → Mem → ℕ → ℕ → ℕ
value_up acc m zero p = acc
value_up acc m (suc n) p = value_up (10 * acc + (m (p + n) - b'0')) m n p

-- The value of the `n` digits at `p`, the highest first, behind digits of value `acc`.
abbrev pub value_of : ℕ → Mem → ℕ → ℕ → ℕ
value_of acc m zero p = acc
value_of acc m (suc n) p = value_of (10 * acc + (m p - b'0')) m n (p + 1)

value_up_last :
    (n acc : ℕ) (m : Mem) (p : ℕ)
    → value_up acc m (suc n) p ≡ 10 * value_up acc m n (p + 1) + (m p - b'0')
value_up_last zero acc m p = ap (λ q. 10 * acc + (m q - b'0')) (add-zero p)
value_up_last (suc n) acc m p =
    value_up_last n (10 * acc + (m (p + suc n) - b'0')) m p
    ∙ ap (λ q. 10 * value_up (10 * acc + (m q - b'0')) m n (p + 1) + (m p - b'0')) (along p n)
  where
    along : (p n : ℕ) → p + suc n ≡ p + 1 + n
    along p n = omega arith

-- Ten times over and over: `10 ^ n`.
abbrev pub tens : ℕ → ℕ
tens zero = 1
tens (suc n) = 10 * tens n

-- What the first loop leaves: `n` more digits from index `i` on, whose value is `value`.
pub record Digits (value buf i : ℕ) (m m' : Mem) (n : ℕ) : Type 0 where
  pub value_is : value_up 0 m' n (buf + i) ≡ value
  pub digits : (j : ℕ) → j < n → (b'0' ≤ m' (buf + i + j)) × (m' (buf + i + j) ≤ b'9')
  pub first : (n ≡ 0) ⊎ (m' (buf + i + (n - 1)) ≢ b'0')
  pub others : (q : ℕ) → q < buf + i → m' q ≡ m q

pub value_up_none : (n : ℕ) (m : Mem) (p : ℕ) → n ≡ 0 → value_up 0 m n p ≡ 0
value_up_none zero m p e = refl
value_up_none (suc n) m p e = absurd (omega arith)

no_digit : (value buf i : ℕ) (m : Mem) → value ≡ 0 → Digits value buf i m m 0
no_digit value buf i m done = record {
  value_is = sym done;
  digits = λ j lt. elim lt [ ];
  first = inl refl;
  others = λ q lt. refl;
}

one_digit :
    (value buf i n : ℕ) (m m' : Mem)
    → value ≢ 0
    → Digits (value / 10) buf (i + 1) (store m (buf + i) (b'0' + value % 10)) m' n
    → Digits value buf i m m' (suc n)
one_digit value buf i n m m' some_value d = record {
  value_is =
      value_up_last n 0 m' (buf + i)
      ∙ ap (λ q. 10 * value_up 0 m' n q + (m' (buf + i) - b'0')) (next buf)
      ∙ omega (arith, d.value_is, here);
  digits = digits;
  first = first;
  others = λ q lt. d.others q (omega arith) ∙ away q lt;
}
  where
    next : (b : ℕ) → b + i + 1 ≡ b + (i + 1)
    next b = omega arith

    here : m' (buf + i) ≡ b'0' + value % 10
    here = d.others (buf + i) (omega arith) ∙ store_self m (buf + i) (b'0' + value % 10)

    away : (q : ℕ) → q < buf + i → store m (buf + i) (b'0' + value % 10) q ≡ m q
    away q lt = ground arith

    along : (j : ℕ) → buf + i + suc j ≡ buf + (i + 1) + j
    along j = omega arith

    digits : (j : ℕ) → j < suc n → (b'0' ≤ m' (buf + i + j)) × (m' (buf + i + j) ≤ b'9')
    digits zero lt = rw (add-zero (buf + i), here) (omega arith, omega arith)
    digits (suc j) lt = rw (along j) (d.digits j (omega arith))

    at_first : n ≡ 0 → buf + i + (suc n - 1) ≡ buf + i
    at_first z = omega arith

    above : n ≢ 0 → buf + (i + 1) + (n - 1) ≡ buf + i + (suc n - 1)
    above ne = omega arith

    first : (suc n ≡ 0) ⊎ (m' (buf + i + (suc n - 1)) ≢ b'0')
    first = elim (Bool-cases (n == 0)) [
      | inl one ↦
          let none_above : n ≡ 0 = ground arith in
          let low : value / 10 ≡ 0 =
            sym d.value_is ∙ value_up_none n m' (buf + (i + 1)) none_above in
          inr (λ e. absurd (omega (arith, low, here, ap m' (at_first none_above), e, some_value)))
      | inr more ↦
          let some_above : n ≢ 0 = ground arith in
          elim d.first [
            | inl z ↦ absurd (some_above z)
            | inr ne ↦ inr (λ e. ne (ap m' (above some_above) ∙ e))
          ]
    ]

pub digits_loop_lem :
    (fuel value buf : ℕ) (m : Mem) (i : ℕ)
    → value < tens fuel
    → (m' : Mem) × (n : ℕ) × (digits_loop fuel value buf m i ≡ (m', i + n))
      × (n ≤ fuel)
      × Digits value buf i m m' n
unfolding digits_loop
digits_loop_lem zero value buf m i lt =
    (m, 0, ap (λ k. (m, k)) (sym (add-zero i)), omega arith, no_digit value buf i m (omega arith))
digits_loop_lem (suc fuel) value buf m i lt = elim (Bool-cases (value == 0)) [
  | inl done ↦ (
    m,
    0,
    rw done (ap (λ k. (m, k)) (sym (add-zero i))),
    omega arith,
    no_digit value buf i m (ground arith),
  )
  | inr more ↦
      let some_value : value ≢ 0 = ground arith in
      let (m', n, run, le, d) =
        digits_loop_lem fuel (value / 10) buf (store m (buf + i) (b'0' + value % 10)) (i + 1)
          (omega arith) in
      (
        m',
        suc n,
        rw more (run ∙ ap (λ k. (m', k)) (omega arith)),
        omega arith,
        one_digit value buf i n m m' some_value d,
      )
]
