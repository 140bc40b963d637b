-- ===== src/Fs/Inodes.antt =====
-- alloc_inode, free_inode, acquire_inode and release_inode of kernel/src/fs.c. The message that
-- release_inode prints is left out.
pub mod Freeing
pub mod References
use foxtail.Common.{
  ℕ, zero, suc, ◌+◌, ◌-◌, ◌/◌, ◌%◌, Bool, true, false, Option, none, some, List, [], ◌∷◌, ◌&&◌,
  Outcome, ok, fault, ◌>>=◌, ◌==◌, if◌then◌else◌,
}
use foxtail.Fs.Defs.{
  Fs, Inode, unallocated, file, same_type, inode_at, put_inode, slot_at, block_size,
}
use foxtail.Fs.Blocks.{free_block}

-- `for (i = 0; …; i++) if (inodes[i].type == FT_UNALLOCATED) return inodes + i`, from `i` on.
unfoldable pub first_unallocated : List Inode → ℕ → Option ℕ
first_unallocated [] i = none
first_unallocated (x ∷ xs) i =
    if same_type x.file_type unallocated then some i else first_unallocated xs (i + 1)

unfoldable pub alloc_inode : Fs → Option ℕ
unfolding first_unallocated
alloc_inode fs = first_unallocated fs.inodes 0

-- `for (i = 0; i < num_blocks; i++) free_block(blocks[i])`, from `i` on.
unfoldable pub free_blocks : ℕ → ℕ → Inode → Fs → Outcome Fs
free_blocks zero i inode fs = ok fs
free_blocks (suc rounds) i inode fs =
    slot_at inode i >>= λ b. free_block fs b >>= λ r. free_blocks rounds (i + 1) inode r.1

-- `(size + BLOCK_SIZE - 1) / BLOCK_SIZE` in `u32`
abbrev pub blocks_of : ℕ → ℕ
blocks_of size = (size + 4095) % 4294967296 / block_size

unfoldable pub free_inode : Fs → ℕ → Outcome Fs
free_inode fs idx = inode_at fs idx >>= λ inode.
    (if same_type inode.file_type file
      then free_blocks (blocks_of inode.word0) 0 inode fs
      else ok fs)
    >>= λ fs'. ok (put_inode fs' idx (record inode { file_type = unallocated }))

-- `num_refs` is a `u16`.
unfoldable pub acquire_inode : Fs → ℕ → Outcome Fs
acquire_inode fs idx = inode_at fs idx >>= λ inode.
    ok (put_inode fs idx (record inode { num_refs = (inode.num_refs + 1) % 65536 }))

unfoldable pub release_inode : Fs → ℕ → Outcome Fs
release_inode fs idx = inode_at fs idx >>= λ inode.
    let refs = (inode.num_refs + 65535) % 65536 in
    let fs' = put_inode fs idx (record inode { num_refs = refs }) in
    if inode.valid == 0 && refs == 0 then free_inode fs' idx else ok fs'
