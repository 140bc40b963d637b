-- ===== src/User/Rev/Ranges.antt =====
-- reverse_range of user/src/rev.c, and the bytes in memory.
use mathlib.Core.List.{reverse, reverse-append}
use foxtail.Common.{
  ℕ, zero, suc, ◌+◌, ◌-◌, ◌≤◌, ◌<◌, ◌≡◌, ◌≢◌, ◌⊎◌, inl, inr, refl, ap, ◌∙◌, [], ◌∷◌, ◌++◌, arith,
  Mem, store, ltb, ◌==◌, Bool-cases,
}
use foxtail.Syscall.Transfer.{bytes_at}
use foxtail.User.Rev.{reverse_loop, reverse_range}

module _ (s : Mem) (l r : ℕ) (lt : l < r) where
  abbrev swapped : Mem
  swapped = store (store s l (s r)) r (s l)

  swapped_left : swapped l ≡ s r
  swapped_left = ground (arith, lt)

  swapped_right : swapped r ≡ s l
  swapped_right = ground (arith, lt)

  swapped_ne : (q : ℕ) → q ≢ l → q ≢ r → swapped q ≡ s q
  swapped_ne q ne ne' = ground arith

reverse_loop_lem :
    (rounds : ℕ) (s : Mem) (l r : ℕ)
    → r - l ≤ rounds
    → (q : ℕ)
    → (l ≤ q → q ≤ r → reverse_loop rounds s l r q ≡ s (l + r - q))
      × ((q < l) ⊎ (r < q) → reverse_loop rounds s l r q ≡ s q)
unfolding reverse_loop
reverse_loop_lem zero s l r le q = (λ ge lt. ap s (omega arith), λ h. refl)
reverse_loop_lem (suc rounds) s l r le q = elim (Bool-cases (ltb l r)) [
  | inr met ↦ let ends : r ≤ l = ground arith in rw met (λ ge lt. ap s (omega arith), λ h. refl)
  | inl apart ↦
      let lt : l < r = ground arith in
      let s' = store (store s l (s r)) r (s l) in
      let (inside, outside) = reverse_loop_lem rounds s' (l + 1) (r - 1) (omega arith) q in
      let turned : l ≤ q → q ≤ r → reverse_loop rounds s' (l + 1) (r - 1) q ≡ s (l + r - q) =
        λ ge le'. elim (Bool-cases (q == l)) [
          | inl at_left ↦
              let e : q ≡ l = ground arith in
              outside (inl (omega arith)) ∙ ap s' e ∙ swapped_left s l r lt ∙ ap s (omega arith)
          | inr ne ↦ elim (Bool-cases (q == r)) [
            | inl at_right ↦
                let e : q ≡ r = ground arith in
                outside (inr (omega arith)) ∙ ap s' e ∙ swapped_right s l r lt ∙ ap s (omega arith)
            | inr ne' ↦
                let ne_l : q ≢ l = ground arith in
                let ne_r : q ≢ r = ground arith in
                inside (omega arith) (omega arith)
                ∙ swapped_ne s l r lt (l + 1 + (r - 1) - q) (λ e. ne_r (omega (arith, e)))
                    (λ e. ne_l (omega (arith, e)))
                ∙ ap s (omega arith)
          ]
        ] in
      rw apart (
        turned,
        λ h.
            outside (wider lt h)
            ∙ swapped_ne s l r lt q (λ e. off lt h (inl e)) (λ e. off lt h (inr e)),
      )
]
  where
    wider : l < r → (q < l) ⊎ (r < q) → (q < l + 1) ⊎ (r - 1 < q)
    wider lt (inl h) = inl (omega arith)
    wider lt (inr h) = inr (omega arith)

    off : l < r → (q < l) ⊎ (r < q) → (q ≡ l) ⊎ (q ≡ r) → ⊥
    off lt (inl h) (inl e) = absurd (omega arith)
    off lt (inl h) (inr e) = absurd (omega arith)
    off lt (inr h) (inl e) = absurd (omega arith)
    off lt (inr h) (inr e) = absurd (omega arith)

pub bytes_at-snoc : (m : Mem) (n p : ℕ) → bytes_at m (suc n) p ≡ bytes_at m n p ++ m (p + n) ∷ []
bytes_at-snoc m zero p = ap (λ q. m q ∷ []) (omega arith)
bytes_at-snoc m (suc n) p =
    ap (λ l. m p ∷ l)
      (bytes_at-snoc m n (p + 1) ∙ ap (λ q. bytes_at m n (p + 1) ++ m q ∷ []) (omega arith))

pub bytes_at_same :
    (m m' : Mem) (n p : ℕ) → ((q : ℕ) → q < p + n → m q ≡ m' q) → bytes_at m n p ≡ bytes_at m' n p
bytes_at_same m m' zero p h = refl
bytes_at_same m m' (suc n) p h =
    rw (h p (omega arith), bytes_at_same m m' n (p + 1) (λ q lt. h q (omega (arith, lt)))) refl

bytes_at-reverse :
    (m m' : Mem) (n p : ℕ)
    → ((i : ℕ) → i < n → m' (p + i) ≡ m (n - 1 - i))
    → bytes_at m' n p ≡ reverse (bytes_at m n 0)
bytes_at-reverse m m' zero p h = refl
bytes_at-reverse m m' (suc n) p h =
    rw (bytes_at-snoc m n 0, reverse-append (bytes_at m n 0) (m (0 + n) ∷ []))
      (ap (λ x. x ∷ bytes_at m' n (p + 1))
          (ap m' (omega arith) ∙ h 0 (omega arith) ∙ ap m (omega arith))
        ∙ ap (λ l. m (0 + n) ∷ l)
            (bytes_at-reverse m m' n (p + 1)
              (λ i lt. ap m' (omega arith) ∙ h (i + 1) (omega (arith, lt)) ∙ ap m (omega arith))))

pub reverse_range_lem :
    (s : Mem) (n : ℕ) → bytes_at (reverse_range s n) n 0 ≡ reverse (bytes_at s n 0)
unfolding reverse_range
reverse_range_lem s zero = refl
reverse_range_lem s (suc r) = bytes_at-reverse s (reverse_loop r s 0 r) (suc r) 0 (λ i lt.
    ap (reverse_loop r s 0 r) (omega arith)
    ∙ (reverse_loop_lem r s 0 r (omega arith) i).0 (omega arith) (omega (arith, lt))
    ∙ ap s (omega arith))
