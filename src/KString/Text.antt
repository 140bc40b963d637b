-- ===== src/KString/Text.antt =====
-- strlen, strcmp and strcpy of kernel/src/kstring.c, against the list of the bytes before the NUL.
-- `none` is a loop that has used its fuel: it stands for a run past the end of an unterminated string.
use mathlib.Core.Path.{ap₂}
use foxtail.KString.Blocks.{memcpy, memcpy_inside}
use foxtail.Common.{
  ℕ, zero, suc, ◌+◌, ◌≤◌, ◌<◌, ◌≡◌, ◌≢◌, ◌↔◌, refl, ap, true, false, Bool, not, ◌&&◌, ◌||◌, Option,
  none, some, List, [], ◌∷◌, arith, length, ◌==◌, if◌then◌else◌, Mem, store, add-zero, add_assoc,
  ◌∙◌, sym, ◌⊎◌,
}

-- `while (str[len] != '\0') len++`
strlen_loop : ℕ → Mem → ℕ → ℕ → Option ℕ
strlen_loop zero m str len = none
strlen_loop (suc fuel) m str len =
    let rest = strlen_loop fuel m str (len + 1) in if m (str + len) == 0 then some len else rest

unfoldable pub strlen : ℕ → Mem → ℕ → Option ℕ
unfolding strlen_loop
strlen fuel m str = strlen_loop fuel m str 0

-- The loop of `strcmp` from index `i`: 0 for equal strings, 1 for others.
strcmp_loop : ℕ → Mem → ℕ → ℕ → ℕ → Option ℕ
strcmp_loop zero m a b i = none
strcmp_loop (suc fuel) m a b i =
    let rest = strcmp_loop fuel m a b (i + 1) in
    if m (a + i) == 0 || m (b + i) == 0
    then (if m (a + i) == 0 && m (b + i) == 0 then some 0 else some 1)
    else if not (m (a + i) == m (b + i))
    then some 1
    else rest

unfoldable pub strcmp : ℕ → Mem → ℕ → ℕ → Option ℕ
unfolding strcmp_loop
strcmp fuel m a b = strcmp_loop fuel m a b 0

-- The loop of `strcpy` from index `i`, which copies the NUL too and returns its index.
strcpy_loop : ℕ → Mem → ℕ → ℕ → ℕ → Option (ℕ × Mem)
strcpy_loop zero m dst src i = none
strcpy_loop (suc fuel) m dst src i =
    let m' = store m (dst + i) (m (src + i)) in
    let rest = strcpy_loop fuel m' dst src (i + 1) in
    if m' (src + i) == 0 then some (i, m') else rest

unfoldable pub strcpy : ℕ → Mem → ℕ → ℕ → Option (ℕ × Mem)
unfolding strcpy_loop
strcpy fuel m dst src =
    let run = strcpy_loop fuel m dst src 0 in if dst == 0 || src == 0 then some (0, m) else run

-- The bytes of `s`, none of them NUL, stand at `p` with a NUL behind them.
abbrev pub Holds : Mem → ℕ → List ℕ → Type 0
Holds m p [] = m p ≡ 0
Holds m p (c ∷ s) = (m p ≡ c) × (c ≢ 0) × Holds m (p + 1) s

-- Equality of strings as lists, by the comparison of each byte.
unfoldable pub list_eq : List ℕ → List ℕ → Bool
list_eq [] [] = true
list_eq [] (y ∷ ys) = false
list_eq (x ∷ xs) [] = false
list_eq (x ∷ xs) (y ∷ ys) = x == y && list_eq xs ys

-- Each NUL-terminated string at an address is the only one that stands there.
Holds-unique : (m : Mem) (p : ℕ) (s t : List ℕ) → Holds m p s → Holds m p t → s ≡ t
Holds-unique m p [] [] h k = refl
Holds-unique m p [] (c ∷ t) h k = absurd (k.1 (sym k.0 ∙ h))
Holds-unique m p (c ∷ s) [] h k = absurd (h.1 (sym h.0 ∙ k))
Holds-unique m p (c ∷ s) (d ∷ t) h k = ap₂ ◌∷◌ (sym h.0 ∙ k.0) (Holds-unique m (p + 1) s t h.2 k.2)

Holds-store :
    (m : Mem) (p q v : ℕ) (s : List ℕ)
    → Holds m p s
    → (q < p) ⊎ (p + length s < q)
    → Holds (store m q v) p s
Holds-store m p q v [] h away = ground arith
Holds-store m p q v (c ∷ s) h away =
    (ground arith, h.1, Holds-store m (p + 1) q v s h.2 (omega arith))

-- Where the bytes and the NUL agree, the string is the same.
Holds-copied :
    (m m' : Mem) (p q : ℕ) (s : List ℕ)
    → Holds m p s
    → ((i : ℕ) → i < suc (length s) → m' (q + i) ≡ m (p + i))
    → Holds m' q s
Holds-copied m m' p q [] h eq = rw (add-zero, add-zero) at (eq 0 (omega arith)) ∙ h
Holds-copied m m' p q (c ∷ s) h eq = (
  (rw (add-zero, add-zero) at (eq 0 (omega arith))) ∙ h.0,
  h.1,
  Holds-copied m m' (p + 1) (q + 1) s h.2
      λ i lt. rw (add_assoc, add_assoc, one_add) (eq (suc i) (omega arith)),
)
  where
    one_add : {i : ℕ} → 1 + i ≡ suc i
    one_add = omega arith

shift : (m : Mem) (p i : ℕ) (s : List ℕ) → Holds m (p + i + 1) s → Holds m (p + (i + 1)) s
shift m p i s h = rw (← add_assoc) h

strlen_loop_lem :
    (fuel : ℕ) (m : Mem) (str len : ℕ) (s : List ℕ)
    → Holds m (str + len) s
    → length s < fuel
    → strlen_loop fuel m str len ≡ some (len + length s)
unfolding strlen_loop
strlen_loop_lem zero m str len s h lt = elim lt [ ]
strlen_loop_lem (suc fuel) m str len [] h lt = ground arith
strlen_loop_lem (suc fuel) m str len (c ∷ s) h lt =
    ground (arith, strlen_loop_lem fuel m str (len + 1) s (shift m str len s h.2) (omega arith))

-- strlen terminates with the number of bytes before the NUL.
pub strlen_lem :
    (fuel : ℕ) (m : Mem) (str : ℕ) (s : List ℕ)
    → Holds m str s
    → length s < fuel
    → strlen fuel m str ≡ some (length s)
unfolding strlen
strlen_lem fuel m str s h lt =
    strlen_loop_lem fuel m str 0 s (rw add-zero h) lt ∙ ap some (omega arith)

strcmp_loop_lem :
    (fuel : ℕ) (m : Mem) (a b i : ℕ) (s t : List ℕ)
    → Holds m (a + i) s
    → Holds m (b + i) t
    → length s < fuel
    → strcmp_loop fuel m a b i ≡ some (if list_eq s t then 0 else 1)
unfolding strcmp_loop list_eq
strcmp_loop_lem zero m a b i s t h k lt = elim lt [ ]
strcmp_loop_lem (suc fuel) m a b i [] [] h k lt = ground arith
strcmp_loop_lem (suc fuel) m a b i [] (d ∷ t) h k lt = ground arith
strcmp_loop_lem (suc fuel) m a b i (c ∷ s) [] h k lt = ground arith
strcmp_loop_lem (suc fuel) m a b i (c ∷ s) (d ∷ t) h k lt = ground (
  arith,
  strcmp_loop_lem fuel m a b (i + 1) s t (shift m a i s h.2) (shift m b i t k.2) (omega arith),
)

pub list_eq_iff : (s t : List ℕ) → (list_eq s t ≡ true) ↔ (s ≡ t)
unfolding list_eq
list_eq_iff [] [] = ((λ h. refl), (λ h. refl))
list_eq_iff [] (y ∷ t) = ((λ h. cc), (λ h. cc))
list_eq_iff (x ∷ s) [] = ((λ h. cc), (λ h. cc))
list_eq_iff (x ∷ s) (y ∷ t) =
    ((λ h. ground (arith, (list_eq_iff s t).0)), (λ h. ground (arith, (list_eq_iff s t).1)))

-- strcmp terminates, and returns 0 exactly when the two strings are the same list of bytes; it
-- returns 1 for all others.
pub strcmp_lem :
    (fuel : ℕ) (m : Mem) (a b : ℕ) (s t : List ℕ)
    → Holds m a s
    → Holds m b t
    → length s < fuel
    → (strcmp fuel m a b ≡ some (if list_eq s t then 0 else 1))
      × ((strcmp fuel m a b ≡ some 0) ↔ (s ≡ t))
unfolding strcmp
strcmp_lem fuel m a b s t h k lt = (
  run,
  (
    (λ equal. (list_eq_iff s t).0 (ground (arith, run))),
    (λ same. ground (arith, run, (list_eq_iff s t).1 same)),
  ),
)
  where
    run : strcmp_loop fuel m a b 0 ≡ some (if list_eq s t then 0 else 1)
    run = strcmp_loop_lem fuel m a b 0 s t (rw add-zero h) (rw add-zero k) lt

strcpy_loop_lem :
    (fuel : ℕ) (m : Mem) (dst src i : ℕ) (s : List ℕ)
    → Holds m (src + i) s
    → (dst ≤ src) ⊎ (src + length s < dst)
    → length s < fuel
    → strcpy_loop fuel m dst src i
      ≡ some (i + length s, memcpy (length s + 1) m (dst + i) (src + i))
unfolding strcpy_loop memcpy
strcpy_loop_lem zero m dst src i s h away lt = elim lt [ ]
strcpy_loop_lem (suc fuel) m dst src i [] h away lt =
    let m' = store m (dst + i) (m (src + i)) in
    let same : m' (src + i) ≡ 0 = ground arith in ground arith
strcpy_loop_lem (suc fuel) m dst src i (c ∷ s) h away lt =
    let m' = store m (dst + i) (m (src + i)) in
    let same : m' (src + i) ≡ c = ground arith in
    let rest = Holds-store m (src + i + 1) (dst + i) (m (src + i)) s h.2 (omega arith) in
    let size : suc (length s) + 1 ≡ suc (length s + 1) = omega arith in
    rw (same, size)
      (ground (
        arith,
        strcpy_loop_lem fuel m' dst src (i + 1) s (shift m' src i s rest) (omega arith)
            (omega arith),
        add_assoc dst i 1,
        add_assoc src i 1,
      ))

-- strcpy, with neither pointer null and the copy not starting inside the string behind its first
-- byte, terminates, returns the string's length, changes memory as a block copy of the bytes and
-- the NUL does, and leaves the same string at the destination.
pub strcpy_lem :
    (fuel : ℕ) (m : Mem) (dst src : ℕ) (s : List ℕ)
    → Holds m src s
    → dst ≢ 0
    → src ≢ 0
    → (dst ≤ src) ⊎ (src + length s < dst)
    → length s < fuel
    → (strcpy fuel m dst src ≡ some (length s, memcpy (length s + 1) m dst src))
      × Holds (memcpy (length s + 1) m dst src) dst s
unfolding strcpy
strcpy_lem fuel m dst src s h nd ns away lt = (
  ground (
    arith,
    strcpy_loop_lem fuel m dst src 0 s (rw add-zero h) away lt,
    add-zero dst,
    add-zero src,
  ),
  Holds-copied m (memcpy (length s + 1) m dst src) src dst s h
      λ i lt. memcpy_inside (length s + 1) m dst src i (omega arith) (omega arith),
)
