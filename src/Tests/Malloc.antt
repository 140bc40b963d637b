-- ===== src/Tests/Malloc.antt =====
-- user/include/malloc.h on a heap of two blocks, the first of them free.
use foxtail.Common.{ℕ, ok, ◌>>=◌, ◌-◌, ◌≡◌, refl, true, false, [], ◌∷◌, arith}
use foxtail.Malloc.{Heap, header_size, malloc, allocate, find_free_block}
use foxtail.Malloc.Layout.{Apart}
use foxtail.Malloc.Laws.{IsHeap, Given, malloc_lem, malloc-Apart}

abbrev two_blocks : Heap
two_blocks = record {
  blocks =
      record { addr = 4096; size = 64; free = true }
      ∷ record { addr = 8192; size = 32; free = false }
      ∷ [];
  brk = 12288;
}

two_blocks-IsHeap : IsHeap two_blocks
two_blocks-IsHeap = (omega arith, (omega arith, omega arith))

-- The free block is given out again.
reused : (malloc 60 two_blocks >>= λ r. ok r.0) ≡ ok 4108
unfolding malloc allocate find_free_block
reused = refl

malloc_lem_example :
    (ptr : ℕ) × (h' : Heap) × (malloc 60 two_blocks ≡ ok (ptr, h')) × Given 60 two_blocks ptr h'
malloc_lem_example =
    malloc_lem 60 two_blocks two_blocks-IsHeap (omega arith) (omega arith) (omega arith)

malloc-Apart_example :
    (ptr : ℕ) × (h' : Heap) × (malloc 60 two_blocks ≡ ok (ptr, h'))
    × Apart h'.blocks (ptr - header_size) 8192
malloc-Apart_example =
    malloc-Apart 60 8192 two_blocks two_blocks-IsHeap (omega arith) (omega arith) (omega arith) refl
