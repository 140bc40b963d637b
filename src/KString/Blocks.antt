-- ===== src/KString/Blocks.antt =====
-- memcpy, memset and memmove of kernel/src/kstring.c.
use foxtail.Common.{
  ℕ, zero, suc, ◌+◌, ◌-◌, ◌≤◌, ◌<◌, ◌≡◌, refl, ◌⊎◌, inl, inr, arith, ltb, ◌==◌, ◌||◌, if◌then◌else◌,
  Mem, store, Bool-cases, store_self, add-zero, ap, sym, ◌∙◌, leb, ◌&&◌,
}

-- `while (size--) *dst++ = *src++`
unfoldable pub memcpy : ℕ → Mem → ℕ → ℕ → Mem
memcpy zero m dst src = m
memcpy (suc size) m dst src = memcpy size (store m dst (m src)) (dst + 1) (src + 1)

-- `while (size--) *dst++ = val`
unfoldable pub memset : ℕ → Mem → ℕ → ℕ → Mem
memset zero m dst val = m
memset (suc size) m dst val = memset size (store m dst val) (dst + 1) val

-- `for (i = n; i != 0; i--) d[i - 1] = s[i - 1]`
copy_down : ℕ → Mem → ℕ → ℕ → Mem
copy_down zero m d s = m
copy_down (suc i) m d s = copy_down i (store m (d + i) (m (s + i))) d s

-- The rounds of `for (i = 0; i < n; i++) d[i] = s[i]` from index `i` on.
copy_up : ℕ → ℕ → Mem → ℕ → ℕ → Mem
copy_up zero i m d s = m
copy_up (suc n) i m d s = copy_up n (i + 1) (store m (d + i) (m (s + i))) d s

unfoldable pub memmove : Mem → ℕ → ℕ → ℕ → Mem
unfolding copy_up copy_down
memmove m dest src n =
    if dest == src || n == 0
    then m
    else if ltb dest src
    then copy_up n 0 m dest src
    else copy_down n m dest src

-- A block operation leaves the addresses outside its destination alone.
memcpy_outside : (n : ℕ) (m : Mem) (d s q : ℕ) → (q < d) ⊎ (d + n ≤ q) → memcpy n m d s q ≡ m q
unfolding memcpy
memcpy_outside zero m d s q h = refl
memcpy_outside (suc n) m d s q h =
    ground (arith, memcpy_outside n (store m d (m s)) (d + 1) (s + 1) q)

-- A forward copy is right where the source does not start below the destination inside it.
pub memcpy_inside :
    (n : ℕ) (m : Mem) (d s i : ℕ)
    → (d ≤ s) ⊎ (s + n ≤ d)
    → i < n
    → memcpy n m d s (d + i) ≡ m (s + i)
unfolding memcpy
memcpy_inside zero m d s i h lt = elim lt [ ]
memcpy_inside (suc n) m d s zero h lt =
    rw
      (add-zero, add-zero, memcpy_outside n (store m d (m s)) (d + 1) (s + 1) d (inl (omega arith)))
      (store_self m d (m s))
memcpy_inside (suc n) m d s (suc i) h lt = ground (
  arith,
  memcpy_inside n (store m d (m s)) (d + 1) (s + 1) i,
  ap (memcpy n (store m d (m s)) (d + 1) (s + 1)) (step d i),
  ap m (step s i),
)
  where
    step : (a b : ℕ) → a + 1 + b ≡ a + suc b
    step a b = omega arith

copy_up_outside :
    (n i : ℕ) (m : Mem) (d s q : ℕ) → (q < d + i) ⊎ (d + i + n ≤ q) → copy_up n i m d s q ≡ m q
unfolding copy_up
copy_up_outside zero i m d s q h = refl
copy_up_outside (suc n) i m d s q h =
    ground (arith, copy_up_outside n (i + 1) (store m (d + i) (m (s + i))) d s q)

copy_up_inside :
    (n i : ℕ) (m : Mem) (d s j : ℕ)
    → d < s
    → i ≤ j
    → j < i + n
    → copy_up n i m d s (d + j) ≡ m (s + j)
unfolding copy_up
copy_up_inside zero i m d s j h ge lt = absurd (omega arith)
copy_up_inside (suc n) i m d s j h ge lt = elim (Bool-cases (i == j)) [
  | inl e ↦ ground (arith, copy_up_outside n (i + 1) (store m (d + i) (m (s + i))) d s (d + j))
  | inr e ↦ ground (arith, copy_up_inside n (i + 1) (store m (d + i) (m (s + i))) d s j)
]

copy_down_outside :
    (n : ℕ) (m : Mem) (d s q : ℕ) → (q < d) ⊎ (d + n ≤ q) → copy_down n m d s q ≡ m q
unfolding copy_down
copy_down_outside zero m d s q h = refl
copy_down_outside (suc n) m d s q h =
    ground (arith, copy_down_outside n (store m (d + n) (m (s + n))) d s q)

copy_down_inside :
    (n : ℕ) (m : Mem) (d s j : ℕ) → s < d → j < n → copy_down n m d s (d + j) ≡ m (s + j)
unfolding copy_down
copy_down_inside zero m d s j h lt = elim lt [ ]
copy_down_inside (suc n) m d s j h lt = elim (Bool-cases (j == n)) [
  | inl e ↦ ground (arith, copy_down_outside n (store m (d + n) (m (s + n))) d s (d + j))
  | inr e ↦ ground (arith, copy_down_inside n (store m (d + n) (m (s + n))) d s j)
]

-- memmove copies every byte of the source as it was before the call, whichever way the blocks
-- overlap, and changes no address outside the destination.
pub memmove_lem :
    (m : Mem) (dest src n : ℕ)
    → ((i : ℕ) → i < n → memmove m dest src n (dest + i) ≡ m (src + i))
      × ((q : ℕ) → (q < dest) ⊎ (dest + n ≤ q) → memmove m dest src n q ≡ m q)
unfolding memmove
memmove_lem m dest src n = (inside, outside)
  where
    inside : (i : ℕ) → i < n → memmove m dest src n (dest + i) ≡ m (src + i)
    inside i lt = ground (arith, copy_up_inside n 0 m dest src i, copy_down_inside n m dest src i)

    outside : (q : ℕ) → (q < dest) ⊎ (dest + n ≤ q) → memmove m dest src n q ≡ m q
    outside q h = ground (arith, copy_up_outside n 0 m dest src q, copy_down_outside n m dest src q)

-- memcpy, on blocks that do not overlap with the source first, does what memmove does.
pub memcpy-eq-memmove :
    (n : ℕ) (m : Mem) (d s q : ℕ) → (d ≤ s) ⊎ (s + n ≤ d) → memcpy n m d s q ≡ memmove m d s n q
memcpy-eq-memmove n m d s q h = elim (Bool-cases (leb d q && ltb q (d + n))) [
  | inl e ↦
      let i : (q ≡ d + (q - d)) × (q - d < n) = ground arith in
      rw i.0 (memcpy_inside n m d s (q - d) h i.1 ∙ sym ((memmove_lem m d s n).0 (q - d) i.1))
  | inr e ↦
      let out : (q < d) ⊎ (d + n ≤ q) = ground arith in
      memcpy_outside n m d s q out ∙ sym ((memmove_lem m d s n).1 q out)
]

-- memset fills exactly the given block.
pub memset_lem :
    (n : ℕ) (m : Mem) (d v q : ℕ) → memset n m d v q ≡ (if leb d q && ltb q (d + n) then v else m q)
unfolding memset
memset_lem zero m d v q = ground arith
memset_lem (suc n) m d v q = ground (arith, memset_lem n (store m d v) (d + 1) v q)
