-- ===== src/Malloc/Laws.antt =====
-- malloc and free of user/include/malloc.h.
use foxtail.Common.{
  Bool, ap, ℕ, ◌+◌, ◌-◌, ◌*◌, ◌/◌, ◌%◌, ◌≤◌, ◌<◌, ◌≡◌, ◌≢◌, refl, sym, subst, inl, inr, true, false,
  not, ◌&&◌, ◌||◌, none, some, List, [], ◌∷◌, arith, Bool-cases, Option-cases, ok, ltb, ◌==◌,
}
use foxtail.Process.Break.{round_delta, clamp_delta}
use foxtail.Malloc.{
  Block, Heap, header_size, align_up, find_free_block, set_free, add_last, sbrk, request_mem,
  allocate, malloc, block_at, free,
}
use foxtail.Malloc.Layout.{
  Apart, used-Apart, Laid, used, size_at, Laid-set_free, Laid-add_last, used-add_last, used_above,
  size_at-add_last, size_at-set_free, find_free_block-Found, used-set_free,
}

-- The blocks lie one behind another, from address 0 on, up to the break.
abbrev pub IsHeap : Heap → Type 0
IsHeap h = Laid 0 h.blocks h.brk

-- What a successful allocation leaves: the block in front of the pointer was not in use, is big
-- enough, and is in use now, with all that were before and no others.
pub record Given (size : ℕ) (h : Heap) (ptr : ℕ) (h' : Heap) : Type 0 where
  pub heap : IsHeap h'
  pub behind_header : header_size ≤ ptr
  pub unused : used h.blocks (ptr - header_size) ≡ false
  pub big : size ≤ size_at h'.blocks (ptr - header_size)
  pub in_use : (a : ℕ) → used h'.blocks a ≡ (a == ptr - header_size || used h.blocks a)

back : (a : ℕ) → a + header_size - header_size ≡ a
back a = omega arith

Given-at :
    (size a : ℕ) (h h' : Heap)
    → IsHeap h'
    → used h.blocks a ≡ false
    → size ≤ size_at h'.blocks a
    → ((c : ℕ) → used h'.blocks c ≡ (c == a || used h.blocks c))
    → Given size h (a + header_size) h'
Given-at size a h h' heap unused big in_use = record {
  heap = heap;
  behind_header = omega arith;
  unused = rw (back a) unused;
  big = rw (back a) big;
  in_use = λ c. rw (back a) (in_use c);
}

allocate_found :
    (size : ℕ) (h : Heap) (b : Block)
    → find_free_block size h.blocks ≡ some b
    → allocate size h
      ≡ ok (b.addr + header_size, record h { blocks = set_free b.addr false h.blocks })
unfolding allocate
allocate_found size h b found = ground arith

-- The block behind all others.
abbrev fresh : ℕ → ℕ → Block
fresh size brk = record { addr = brk; size = size; free = false }

abbrev extended : ℕ → Heap → Heap
extended size h = record {
  blocks = add_last h.blocks (fresh size h.brk);
  brk = h.brk + (header_size + size + 4095) / 4096 * 4096;
}

-- The size with its header, rounded up to pages, is an `i32`, and the break does not wrap.
abbrev Fits : ℕ → ℕ → Type 0
Fits size brk =
    (header_size + size + 4095 < 2147483648) × (brk + header_size + size + 4095 < 4294967296)

request_mem-Fits :
    (size brk : ℕ)
    → Fits size brk
    → request_mem size brk ≡ ok (fresh size brk, brk + (header_size + size + 4095) / 4096 * 4096)
unfolding request_mem sbrk round_delta clamp_delta
request_mem-Fits size brk (small, below) =
    let whole : (header_size + size) % 4294967296 ≡ header_size + size = omega arith in
    let positive : ltb (header_size + size) 2147483648 ≡ true = ground arith in
    let inside : ltb (2147483647 - 4095) (header_size + size) ≡ false = ground arith in
    let up : ltb ((header_size + size + 4095) / 4096 * 4096) 2147483648 ≡ true = ground arith in
    let kept : (brk + (header_size + size + 4095) / 4096 * 4096) % 4294967296
        ≡ brk + (header_size + size + 4095) / 4096 * 4096 =
      omega arith in
    rw (whole, positive, inside, up, kept) refl

allocate_new :
    (size : ℕ) (h : Heap)
    → find_free_block size h.blocks ≡ none
    → Fits size h.brk
    → allocate size h ≡ ok (h.brk + header_size, extended size h)
unfolding allocate
allocate_new size h full fits = ground (arith, request_mem-Fits size h.brk fits)

-- An allocation of a size that fits.
allocate-Given :
    (size : ℕ) (h : Heap)
    → IsHeap h
    → Fits size h.brk
    → (ptr : ℕ) × (h' : Heap) × (allocate size h ≡ ok (ptr, h')) × Given size h ptr h'
allocate-Given size h v fits = elim (Option-cases (find_free_block size h.blocks)) [
  | inr (b, found) ↦
      let f = find_free_block-Found size 0 h.brk h.blocks b v found in
      (
        b.addr + header_size,
        record h { blocks = set_free b.addr false h.blocks },
        allocate_found size h b found,
        Given-at size b.addr h (record h { blocks = set_free b.addr false h.blocks })
            (Laid-set_free 0 b.addr h.brk false h.blocks v) f.unused
            (subst (λ n. size ≤ n) (sym (size_at-set_free h.blocks b.addr false b.addr)) f.big)
            f.taken,
      )
  | inl full ↦
      let new = fresh size h.brk in
      (
        h.brk + header_size,
        extended size h,
        allocate_new size h full fits,
        Given-at size h.brk h (extended size h)
            (Laid-add_last 0 h.brk (extended size h).brk h.blocks new v (omega arith) (omega arith))
            (used_above 0 h.brk h.brk h.blocks v (omega arith))
            (subst (λ n. size ≤ n) (sym (size_at-add_last 0 h.brk h.blocks new v (omega arith)))
              (omega arith))
            (λ c. used-add_last 0 h.brk h.blocks new c v (omega arith) refl),
      )
]

-- malloc of 1 to 2^31 - 4115 bytes, with a break from which that many bytes and 4114 more do not reach
-- the end of the 32-bit addresses, returns a pointer behind the header of a block that is at least
-- that big and was not in use; it is in use then, as are all blocks that were and no others, and the
-- blocks still lie behind one another without overlap, up to the break.
pub malloc_lem :
    (size : ℕ) (h : Heap)
    → IsHeap h
    → 0 < size
    → size + 4115 ≤ 2147483648
    → h.brk + size + 4114 < 4294967296
    → (ptr : ℕ) × (h' : Heap) × (malloc size h ≡ ok (ptr, h')) × Given size h ptr h'
unfolding malloc
malloc_lem size h v some_bytes small below =
    let (ptr, h', run, g) = allocate-Given (align_up size) h v (omega arith, omega arith) in
    let asked : (size == 0) ≡ false = ground arith in
    let enough : size ≤ align_up size = omega arith in
    (
      ptr,
      h',
      rw asked run,
      record {
        heap = g.heap;
        behind_header = g.behind_header;
        unused = g.unused;
        big = omega (arith, g.big);
        in_use = g.in_use;
      },
    )

-- The memory that malloc gives out, of 1 to 2^31 - 4115 bytes and with a break from which that many
-- bytes and 4114 more do not reach the end of the 32-bit addresses, overlaps no block that was in
-- use, the headers included.
pub malloc-Apart :
    (size a : ℕ) (h : Heap)
    → IsHeap h
    → 0 < size
    → size + 4115 ≤ 2147483648
    → h.brk + size + 4114 < 4294967296
    → used h.blocks a ≡ true
    → (ptr : ℕ) × (h' : Heap) × (malloc size h ≡ ok (ptr, h'))
      × Apart h'.blocks (ptr - header_size) a
malloc-Apart size a h v some_bytes small below is =
    let (ptr, h', run, g) = malloc_lem size h v some_bytes small below in
    (
      ptr,
      h',
      run,
      used-Apart 0 h'.brk (ptr - header_size) a h'.blocks g.heap
          (ground (arith, g.in_use (ptr - header_size))) (ground (arith, g.in_use a, is))
          (λ e. absurd (clash (ap (used h.blocks) e) g.unused is)),
    )
  where
    clash : {x y : Bool} → x ≡ y → x ≡ false → y ≡ true → ⊥
    clash e f t = cc

block_at-used :
    (blocks : List Block) (addr : ℕ)
    → used blocks addr ≡ true
    → (b : Block) × (block_at addr blocks ≡ ok b) × (b.addr ≡ addr)
unfolding block_at
block_at-used [] addr is = absurd (ground arith)
block_at-used (x ∷ blocks) addr is = elim (Bool-cases (x.addr == addr)) [
  | inl here ↦ (x, rw here, ground arith)
  | inr other ↦
      let (b, at, same) = block_at-used blocks addr (ground arith) in (b, rw other at, same)
]

-- free of a pointer behind the header of a block in use takes this block, and no other, out of use,
-- and moves neither a block nor the break.
pub free_lem :
    (ptr : ℕ) (h : Heap)
    → IsHeap h
    → header_size ≤ ptr
    → used h.blocks (ptr - header_size) ≡ true
    → (h' : Heap) × (free ptr h ≡ ok h')
      × IsHeap h'
      × (h'.brk ≡ h.brk)
      × ((a : ℕ) → size_at h'.blocks a ≡ size_at h.blocks a)
      × ((a : ℕ) → used h'.blocks a ≡ (not (a == ptr - header_size) && used h.blocks a))
unfolding free
free_lem ptr h v behind is =
    let (b, at, same) = block_at-used h.blocks (ptr - header_size) is in
    let some_ptr : (ptr == 0) ≡ false = ground arith in
    (
      record h { blocks = set_free (ptr - header_size) true h.blocks },
      rw (some_ptr, at, same),
      Laid-set_free 0 (ptr - header_size) h.brk true h.blocks v,
      refl,
      size_at-set_free h.blocks (ptr - header_size) true,
      used-set_free h.blocks (ptr - header_size),
    )

-- Rounding up wraps around: of 2^32 - 7 to 2^32 - 1 bytes, malloc on an empty heap yields a pointer
-- all the same, and its block has no bytes.
pub malloc_wraps :
    (size brk : ℕ)
    → 4294967288 < size
    → size < 4294967296
    → brk + 8192 < 4294967296
    → (ptr : ℕ) × (h : Heap) × (malloc size (record { blocks = []; brk = brk }) ≡ ok (ptr, h))
      × (ptr ≢ 0)
      × (size_at h.blocks (ptr - header_size) ≡ 0)
unfolding malloc find_free_block
malloc_wraps size brk large small below =
    let empty : Heap = record { blocks = []; brk = brk } in
    let rounded : align_up size ≡ 0 = omega arith in
    let asked : (size == 0) ≡ false = ground arith in
    (
      brk + header_size,
      extended 0 empty,
      rw (asked, rounded) (allocate_new 0 empty refl (omega arith, omega arith)),
      (λ e. absurd (omega arith)),
      none_there brk,
    )
  where
    none_there : (brk : ℕ) → size_at (fresh 0 brk ∷ []) (brk + header_size - header_size) ≡ 0
    none_there brk = ground arith
