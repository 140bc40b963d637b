-- ===== src/Malloc.antt =====
-- user/include/malloc.h: the allocator of user programs. A block header is a record, at its address;
-- the list of all blocks is in the order of `next`. The program writes only to what it was given, so
-- the headers are not in `Mem`. An address whose header is not in the list is a fault.
pub mod Layout
pub mod Laws
use foxtail.Common.{
  ℕ, zero, suc, ◌+◌, ◌-◌, ◌*◌, ◌/◌, ◌%◌, Bool, true, false, not, ◌&&◌, ◌||◌, Option, none, some,
  List, [], ◌∷◌, ◌++◌, Mem, store, Outcome, ok, fault, ◌>>=◌, leb, min, ◌==◌, if◌then◌else◌,
}
use foxtail.Process.Break.{round_delta, clamp_delta}

pub record Block : Type 0 where
  pub addr : ℕ
  pub size : ℕ
  pub free : Bool

-- `free_list`, and the program's break.
pub record Heap : Type 0 where
  pub blocks : List Block
  pub brk : ℕ

-- sizeof(struct block)
abbrev pub header_size : ℕ
header_size = 12

-- `(x + 7) & ~7` in `u32`
abbrev pub align_up : ℕ → ℕ
align_up x = (x + 7) % 4294967296 / 8 * 8

-- What sys_sbrk returns and does to the break, which is a `u32`: see Process/Break for the pages. The
-- kernel panics when it has none left, so a call that returns has got its pages.
unfoldable pub sbrk : ℕ → ℕ → Outcome (ℕ × ℕ)
unfolding round_delta clamp_delta
sbrk brk delta =
    round_delta delta >>= λ brk_delta. ok (brk, (brk + clamp_delta brk brk_delta) % 4294967296)

unfoldable pub find_free_block : ℕ → List Block → Option Block
find_free_block size [] = none
find_free_block size (b ∷ blocks) =
    if b.free && leb size b.size then some b else find_free_block size blocks

-- `block->free = value`, for the block at `addr`.
unfoldable pub set_free : ℕ → Bool → List Block → List Block
set_free addr value [] = []
set_free addr value (b ∷ blocks) =
    if b.addr == addr then record b { free = value } ∷ blocks else b ∷ set_free addr value blocks

unfoldable pub request_mem : ℕ → ℕ → Outcome (Block × ℕ)
unfolding sbrk
request_mem size brk = sbrk brk ((header_size + size) % 4294967296) >>= λ (addr, brk').
    ok (record { addr = addr; size = size; free = false }, brk')

-- The loop to the end of the list and `curr->next = block`.
abbrev pub add_last : List Block → Block → List Block
add_last [] block = block ∷ []
add_last (b ∷ blocks) block = b ∷ add_last blocks block

-- `malloc` behind its rounding; an empty list has no free block, and the new block is its first.
unfoldable pub allocate : ℕ → Heap → Outcome (ℕ × Heap)
unfolding find_free_block set_free request_mem
allocate size h = elim (find_free_block size h.blocks) [
  | some b ↦ ok (b.addr + header_size, record h { blocks = set_free b.addr false h.blocks })
  | none ↦ request_mem size h.brk >>= λ (b, brk).
      ok (b.addr + header_size, record { blocks = add_last h.blocks b; brk = brk })
]

unfoldable pub malloc : ℕ → Heap → Outcome (ℕ × Heap)
unfolding allocate
malloc size h = if size == 0 then ok (0, h) else allocate (align_up size) h

unfoldable pub block_at : ℕ → List Block → Outcome Block
block_at addr [] = fault
block_at addr (b ∷ blocks) =
    let rest = block_at addr blocks in if b.addr == addr then ok b else rest

unfoldable pub free : ℕ → Heap → Outcome Heap
unfolding set_free block_at
free ptr h =
    if ptr == 0
    then ok h
    else block_at (ptr - header_size) h.blocks >>= λ b.
        ok (record h { blocks = set_free b.addr true h.blocks })

-- `for (i = 0; i < total; i++) p[i] = 0`, from `p` on.
unfoldable pub clear : ℕ → Mem → ℕ → Mem
clear zero m p = m
clear (suc n) m p = clear n (store m p 0) (p + 1)

-- The product is in `u32`.
unfoldable pub calloc : ℕ → ℕ → Heap → Mem → Outcome (ℕ × Heap × Mem)
unfolding malloc clear
calloc nmemb size h m =
    let total = nmemb * size % 4294967296 in
    malloc total h >>= λ (ptr, h'). ok (ptr, h', (if ptr == 0 then m else clear total m ptr))

-- `for (i = 0; …; i++) dst[i] = src[i]`, from `i` on.
unfoldable pub copy_from : ℕ → ℕ → Mem → ℕ → ℕ → Mem
copy_from zero i m dst src = m
copy_from (suc n) i m dst src = copy_from n (i + 1) (store m (dst + i) (m (src + i))) dst src

unfoldable pub realloc : ℕ → ℕ → Heap → Mem → Outcome (ℕ × Heap × Mem)
unfolding malloc free block_at copy_from
realloc ptr size h m =
    if ptr == 0
    then (malloc size h >>= λ (ptr', h'). ok (ptr', h', m))
    else if size == 0
    then (free ptr h >>= λ h'. ok (0, h', m))
    else block_at (ptr - header_size) h.blocks >>= λ b.
        if leb size b.size
        then ok (ptr, h, m)
        else malloc size h >>= λ (ptr', h').
            free ptr h' >>= λ h''. ok (ptr', h'', copy_from (min b.size size) 0 m ptr' ptr)
