-- ===== src/Tests/KString.antt =====
-- kernel/src/kstring.c on a small memory.
use foxtail.Common.{ℕ, ◌≡◌, refl, some, List, [], ◌∷◌, arith, Mem, store_list}
use foxtail.KString.{Holds, strcpy, memcpy}

-- "ab" at 10, "ac" at 20
abbrev memory : Mem
memory = store_list (store_list (λ _. 0) 10 (b'a' ∷ b'b' ∷ [])) 20 (b'a' ∷ b'c' ∷ [])

abbrev ab : List ℕ
ab = b'a' ∷ b'b' ∷ []

abbrev ac : List ℕ
ac = b'a' ∷ b'c' ∷ []

memory-ab : Holds memory 10 ab
memory-ab = omega arith

memory-ac : Holds memory 20 ac
memory-ac = omega arith

strcpy_run : strcpy 100 memory 30 10 ≡ some (2, memcpy 3 memory 30 10)
unfolding strcpy memcpy
strcpy_run = refl
