-- ===== src/Tests/PageAlloc.antt =====
-- kernel/src/pgalloc.c on a map with one free page.
use foxtail.Common.{
  ℕ, zero, suc, ◌+◌, ◌-◌, ◌*◌, ◌^◌, ◌<◌, ◌≡◌, ◌≢◌, refl, true, false, not, some, none, List, [],
  ◌∷◌, arith, length, get_elem?, replicate, ok, length-replicate,
}
use foxtail.PageAlloc.{Pages, entries, alloc_page, free_page}
use foxtail.PageAlloc.Words.{is_free, IsValid}
use foxtail.PageAlloc.Laws.{Allocated, alloc_page_lem, free_page-alloc_page}

zeros : ℕ → List ℕ
zeros n = replicate n 0

zeros-small : (n i w : ℕ) → get_elem? (zeros n) i ≡ some w → w < 2 ^ 32
unfolding zeros
zeros-small zero i w e = ground arith
zeros-small (suc n) zero w e = ground arith
zeros-small (suc n) (suc i) w e = zeros-small n i w e

-- Pages 1 and 3 are free, and the cursor stands behind their word.
abbrev one_word : Pages
one_word = record { free_map = 10 ∷ zeros 32767; alloc_ptr = 5 }

one_word-IsValid : IsValid one_word
unfolding zeros
one_word-IsValid = record {
  size = omega (arith, length-replicate 32767 (zero));
  cursor = omega arith;
  words = small;
}
  where
    small : (i w : ℕ) → get_elem? (10 ∷ zeros 32767) i ≡ some w → w < 2 ^ 32
    small zero w e = ground arith
    small (suc i) w e = zeros-small 32767 i w e

one_is_free : is_free one_word 1 ≡ true
unfolding foxtail.Common.Bits.test_bit
one_is_free = refl

alloc_page_lem_example :
    (q : ℕ) × (p' : Pages) × (alloc_page entries one_word ≡ ok (q, p')) × Allocated one_word q p'
alloc_page_lem_example = alloc_page_lem one_word 1 one_word-IsValid (omega arith) one_is_free

free_page-alloc_page_example :
    (q : ℕ) × (p' : Pages) × (alloc_page entries one_word ≡ ok (q, p'))
    × (free_page p' q ≡ ok (true, record p' { free_map = one_word.free_map }))
free_page-alloc_page_example =
    free_page-alloc_page one_word 1 one_word-IsValid (omega arith) one_is_free
