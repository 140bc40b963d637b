-- ===== src/Console/Numbers/Decimal.antt =====
-- The digits that kprint_uint32_dec of kernel/src/kprintf.c writes, read back.
use foxtail.Common.{
  ℕ, zero, suc, ◌+◌, ◌-◌, ◌*◌, ◌≤◌, ◌<◌, ◌≡◌, ◌≢◌, ◌⊎◌, refl, sym, ap, ◌∙◌, inl, inr, false, arith,
  Mem, store, store_self, ltb, ◌==◌, Bool-cases, add-zero, zero-add, subst,
}
use foxtail.Console.Numbers.{digits_loop, reverse_loop, kprint_uint32_dec}
use foxtail.Console.Numbers.Digits.{value_up, value_of, value_up_none, digits_loop_lem, Digits}

-- The second loop turns the bytes from `start` to `end` around.
reverse_loop_lem :
    (rounds : ℕ) (m : Mem) (buf start end : ℕ)
    → end - start ≤ rounds
    → ((q : ℕ)
        → start ≤ q
        → q ≤ end
        → reverse_loop rounds m buf start end (buf + q) ≡ m (buf + (start + end - q)))
      × ((q : ℕ)
          → (q < buf + start) ⊎ (buf + end < q)
          → reverse_loop rounds m buf start end q ≡ m q)
unfolding reverse_loop
reverse_loop_lem zero m buf start end le =
    ((λ q ge lt. ap (λ k. m (buf + k)) (omega arith)), (λ q h. refl))
reverse_loop_lem (suc rounds) m buf start end le = elim (Bool-cases (ltb start end)) [
  | inr met ↦
      let ends : end ≤ start = ground arith in
      rw met ((λ q ge lt. ap (λ k. m (buf + k)) (omega arith)), (λ q h. refl))
  | inl apart ↦
      let lt : start < end = ground arith in
      let swapped = store (store m (buf + start) (m (buf + end))) (buf + end) (m (buf + start)) in
      let (inside, outside) =
        reverse_loop_lem rounds swapped buf (start + 1) (end - 1) (omega arith) in
      rw apart (
        (λ q ge le'.
            turned lt (reverse_loop rounds swapped buf (start + 1) (end - 1)) inside outside q ge
              le'),
        (λ q h. outside q (wider lt q h) ∙ untouched q h lt),
      )
]
  where
    wider :
        start < end
        → (q : ℕ) → (q < buf + start) ⊎ (buf + end < q)
        → (q < buf + (start + 1)) ⊎ (buf + (end - 1) < q)
    wider lt q (inl h) = inl (omega arith)
    wider lt q (inr h) = inr (omega arith)

    untouched :
        (q : ℕ)
        → (q < buf + start) ⊎ (buf + end < q)
        → start < end
        → store (store m (buf + start) (m (buf + end))) (buf + end) (m (buf + start)) q ≡ m q
    untouched q h lt = ground arith

    swap : Mem
    swap = store (store m (buf + start) (m (buf + end))) (buf + end) (m (buf + start))

    swap_start : start < end → swap (buf + start) ≡ m (buf + end)
    swap_start lt = ground arith

    swap_end : start < end → swap (buf + end) ≡ m (buf + start)
    swap_end lt = ground arith

    swap_mid : (q : ℕ) → q ≢ start → q ≢ end → swap (buf + q) ≡ m (buf + q)
    swap_mid q low high = ground arith

    at_same : {q r : ℕ} → q ≡ r → buf + q ≡ buf + r
    at_same e = ap (λ k. buf + k) e

    turned :
        start < end
        → (m' : Mem)
        → ((q : ℕ)
            → start + 1 ≤ q
            → q ≤ end - 1
            → m' (buf + q) ≡ swap (buf + (start + 1 + (end - 1) - q)))
        → ((q : ℕ) → (q < buf + (start + 1)) ⊎ (buf + (end - 1) < q) → m' q ≡ swap q)
        → (q : ℕ) → start ≤ q
        → q ≤ end
        → m' (buf + q) ≡ m (buf + (start + end - q))
    turned lt m' inside outside q ge le' = elim (Bool-cases (q == start)) [
      | inl low ↦
          let is : q ≡ start = ground arith in
          ap m' (at_same is)
          ∙ outside (buf + start) (inl (omega arith))
          ∙ swap_start lt
          ∙ ap m (omega arith)
      | inr not_low ↦ elim (Bool-cases (q == end)) [
        | inl high ↦
            let is : q ≡ end = ground arith in
            ap m' (at_same is)
            ∙ outside (buf + end) (inr (omega arith))
            ∙ swap_end lt
            ∙ ap m (omega arith)
        | inr not_high ↦
            let low : q ≢ start = ground arith in
            let high : q ≢ end = ground arith in
            inside q (omega arith) (omega arith)
            ∙ swap_mid (start + 1 + (end - 1) - q) (omega arith) (omega arith)
            ∙ ap m (omega arith)
      ]
    ]

-- Turned around, the digits give the same value from the highest on.
value_of-reversed :
    (n acc : ℕ) (m m' : Mem) (p r : ℕ)
    → ((j : ℕ) → j < n → m' (p + j) ≡ m (r + (n - 1 - j)))
    → value_of acc m' n p ≡ value_up acc m n r
value_of-reversed zero acc m m' p r h = refl
value_of-reversed (suc n) acc m m' p r h =
    ap (λ d. value_of (10 * acc + (d - b'0')) m' n (p + 1)) top
    ∙ value_of-reversed n (10 * acc + (m (r + n) - b'0')) m m' (p + 1) r
        (λ j lt. ap m' (along p j) ∙ h (suc j) (omega arith) ∙ ap m (down r n j))
  where
    top : m' p ≡ m (r + n)
    top = ap m' (sym (add-zero p)) ∙ h 0 (omega arith) ∙ ap m (omega arith)

    along : (p j : ℕ) → p + 1 + j ≡ p + suc j
    along p j = omega arith

    down : (r n j : ℕ) → r + (suc n - 1 - suc j) ≡ r + (n - 1 - j)
    down r n j = omega arith

-- The `n` decimal digits at `buf` and the NUL behind them spell a number: their value, from the
-- first one on, is the number, and there is no leading zero but the one of the number zero.
pub record IsDecimal (m : Mem) (buf n value : ℕ) : Type 0 where
  pub some_digits : 1 ≤ n
  pub most_digits : n ≤ 10
  pub value_is : value_of 0 m n buf ≡ value
  pub digits : (j : ℕ) → j < n → (b'0' ≤ m (buf + j)) × (m (buf + j) ≤ b'9')
  pub ends : m (buf + n) ≡ 0
  pub leading : (n ≡ 1) ⊎ (m buf ≢ b'0')

zero-IsDecimal : (m : Mem) (buf : ℕ) → IsDecimal (store (store m buf b'0') (buf + 1) 0) buf 1 0
zero-IsDecimal m buf = record {
  some_digits = omega arith;
  most_digits = omega arith;
  value_is = omega (arith, digit);
  digits = λ j lt. only j lt;
  ends = store_self (store m buf b'0') (buf + 1) 0;
  leading = inl refl;
}
  where
    digit : store (store m buf b'0') (buf + 1) 0 buf ≡ b'0'
    digit = ground arith

    only :
        (j : ℕ)
        → j < 1
        → (b'0' ≤ store (store m buf b'0') (buf + 1) 0 (buf + j))
          × (store (store m buf b'0') (buf + 1) 0 (buf + j) ≤ b'9')
    only zero lt = rw (add-zero buf, digit) (omega arith, omega arith)
    only (suc j) lt = absurd (omega arith)

reversed-IsDecimal :
    (value buf n : ℕ) (m m' : Mem)
    → value ≢ 0
    → n ≤ 10
    → Digits value buf 0 m m' n
    → IsDecimal (reverse_loop n (store m' (buf + n) 0) buf 0 (n - 1)) buf n value
reversed-IsDecimal value buf n m m' some_value le d = record {
  some_digits = some_digits;
  most_digits = le;
  value_is = value_of-reversed n 0 m' back buf (buf + 0) turned ∙ d.value_is;
  digits = λ j lt. rw (turned j lt) (d.digits (n - 1 - j) (omega arith));
  ends = turn.1 (buf + n) (inr (omega (arith, some_digits))) ∙ store_self m' (buf + n) 0;
  leading = elim d.first [
    | inl none ↦ absurd (omega (arith, some_digits))
    | inr ne ↦
        inr
          (λ e. ne (ap m' (omega arith) ∙ sym (turned 0 some_digits) ∙ ap back (add-zero buf) ∙ e))
  ];
}
  where
    some_digits : 1 ≤ n
    some_digits = elim (Bool-cases (n == 0)) [
      | inl none ↦
          absurd (some_value (sym d.value_is ∙ value_up_none n m' (buf + 0) (ground arith)))
      | inr more ↦ ground arith
    ]

    back : Mem
    back = reverse_loop n (store m' (buf + n) 0) buf 0 (n - 1)

    turn :
        ((q : ℕ)
          → 0 ≤ q
          → q ≤ n - 1
          → back (buf + q) ≡ store m' (buf + n) 0 (buf + (0 + (n - 1) - q)))
        × ((q : ℕ) → (q < buf + 0) ⊎ (buf + (n - 1) < q) → back q ≡ store m' (buf + n) 0 q)
    turn = reverse_loop_lem n (store m' (buf + n) 0) buf 0 (n - 1) (omega arith)

    before_end : (q : ℕ) → q < n → store m' (buf + n) 0 (buf + q) ≡ m' (buf + q)
    before_end q lt = ground arith

    turned : (j : ℕ) → j < n → back (buf + j) ≡ m' (buf + 0 + (n - 1 - j))
    turned j lt =
        turn.0 j (omega arith) (omega arith)
        ∙ before_end (0 + (n - 1) - j) (omega arith)
        ∙ ap m' (omega arith)

-- What follows the first loop.
abbrev finish : ℕ → Mem × ℕ → Mem
finish buf (m', i) = reverse_loop i (store m' (buf + i) 0) buf 0 (i - 1)

dec_run :
    (value : ℕ) (m : Mem) (buf : ℕ)
    → (value == 0) ≡ false
    → kprint_uint32_dec value m buf ≡ finish buf (digits_loop 10 value buf m 0)
unfolding kprint_uint32_dec
dec_run value m buf more = rw more

-- kprint_uint32_dec terminates for every 32-bit number and writes its decimal digits, at most ten of
-- them, the highest first, without a leading zero, and a NUL.
pub kprint_uint32_dec_lem :
    (value : ℕ) (m : Mem) (buf : ℕ)
    → value < 4294967296
    → (n : ℕ) × IsDecimal (kprint_uint32_dec value m buf) buf n value
unfolding kprint_uint32_dec
kprint_uint32_dec_lem value m buf small = elim (Bool-cases (value == 0)) [
  | inl none ↦
      let is : value ≡ 0 = ground arith in
      (
        1,
        subst (λ v. IsDecimal (kprint_uint32_dec v m buf) buf 1 v) (sym is) (zero-IsDecimal m buf),
      )
  | inr more ↦
      let some_value : value ≢ 0 = ground arith in
      let (m', n, run, le, d) = digits_loop_lem 10 value buf m 0 (omega arith) in
      (
        n,
        subst (λ m'. IsDecimal m' buf n value)
            (sym
              (dec_run value m buf more ∙ ap (finish buf) (run ∙ ap (λ k. (m', k)) (zero-add n))))
            (reversed-IsDecimal value buf n m m' some_value le d),
      )
]
