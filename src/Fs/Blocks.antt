-- ===== src/Fs/Blocks.antt =====
-- alloc_block and free_block of kernel/src/fs.c, over the bitmap of used blocks (1 is used).
pub mod Laws
use foxtail.Common.{
  ℕ, zero, suc, ◌+◌, ◌/◌, ◌%◌, Bool, true, false, Option, none, some, get_elem?, set, List, Outcome,
  ok, fault, ◌>>=◌, if◌then◌else◌,
}
use foxtail.Common.Bits.{test_bit, set_bit, clear_bit}
use foxtail.Fs.Defs.{Fs, num_blocks}

-- `free_block_bitmap[i]`
abbrev pub byte_at : List ℕ → ℕ → Outcome ℕ
byte_at map i = elim (get_elem? map i) [ none ↦ fault | some b ↦ ok b ]

-- `for (i = 0; i < NUM_BLOCKS; i++)`, from `i` on; -1 as a `u32` if every block is used.
alloc_block_loop : ℕ → ℕ → Fs → Outcome (ℕ × Fs)
alloc_block_loop zero i fs = ok (4294967295, fs)
alloc_block_loop (suc rounds) i fs =
    let rest = alloc_block_loop rounds (i + 1) fs in
    byte_at fs.bitmap (i / 8) >>= λ b.
    if test_bit b (i % 8)
    then rest
    else ok (i, record fs { bitmap = set fs.bitmap (i / 8) (set_bit b (i % 8)) })

unfoldable pub alloc_block : Fs → Outcome (ℕ × Fs)
unfolding alloc_block_loop test_bit set_bit
alloc_block fs = alloc_block_loop num_blocks 0 fs

unfoldable pub free_block : Fs → ℕ → Outcome (Bool × Fs)
free_block fs block_idx = byte_at fs.bitmap (block_idx / 8) >>= λ b.
    if test_bit b (block_idx % 8)
    then ok (false, fs)
    else ok
        (true, record fs { bitmap = set fs.bitmap (block_idx / 8) (clear_bit b (block_idx % 8)) })
