-- ===== src/Fs/Bytes.antt =====
-- fs_move_bytes, fs_read_bytes and fs_write_bytes of kernel/src/fs.c. The blocks of file contents are
-- `disk`, apart from the bitmap, which is the front of block 0, and from the inode table in the eight
-- blocks behind it.
pub mod Contents
pub mod Growth
pub mod Copy
use foxtail.Common.{
  ℕ, zero, suc, ◌+◌, ◌-◌, ◌*◌, ◌/◌, ◌%◌, Option, none, some, Bool, true, false, List, [], ◌∷◌,
  get_elem?, get_or, set, length, min, Mem, store, Outcome, ok, fault, spin, beyond, ◌>>=◌, ltb,
  leb, ◌==◌, ◌||◌, ◌&&◌, if◌then◌else◌,
}
use foxtail.Fs.Defs.{Fs, Inode, inode_at, put_inode, slot_at, ndirect, block_size, num_blocks}
use foxtail.Fs.Blocks.{alloc_block}
use foxtail.Fs.Links.{follow_symlink}

-- NUM_BITMAP_BLOCKS + NUM_INODE_BLOCKS
abbrev pub first_data_block : ℕ
first_data_block = 9

-- NDIRECT * BLOCK_SIZE
abbrev pub file_max_size : ℕ
file_max_size = ndirect * block_size

-- `a - b` in `u32`
abbrev pub sub32 : ℕ → ℕ → ℕ
sub32 a b = (a + (4294967296 - b)) % 4294967296

-- memcpy from `m` at `src` to `m'` at `dst`.
unfoldable pub copy_between : ℕ → Mem → ℕ → Mem → ℕ → Mem
copy_between zero m' dst m src = m'
copy_between (suc n) m' dst m src = copy_between n (store m' dst (m src)) (dst + 1) m (src + 1)

-- Outside the direct blocks the answer is block 0.
unfoldable pub get_block_from_inode_offset : Inode → ℕ → Outcome ℕ
get_block_from_inode_offset inode offset =
    if ltb (offset / block_size) ndirect then slot_at inode (offset / block_size) else ok 0

-- `blocks[unallocated_block] = alloc_block()` for `rounds` blocks from `block` on.
unfoldable pub allocate : ℕ → ℕ → List ℕ → Fs → Outcome (List ℕ × Fs)
allocate zero block slots fs = ok (slots, fs)
allocate (suc rounds) block slots fs = alloc_block fs >>= λ r. elim (get_elem? slots block) [
  | none ↦ fault
  | some old ↦ allocate rounds (block + 1) (set slots block r.0) r.1
]

-- `(x + BLOCK_SIZE - 1) / BLOCK_SIZE` in `u32`
abbrev pub block_round : ℕ → ℕ
block_round x = (x + 4095) % 4294967296 / block_size

-- The growth of a file before a write up to `end`.
unfoldable pub grow : Fs → ℕ → Inode → ℕ → Outcome Fs
unfolding allocate
grow fs idx inode end =
    if ltb (file_max_size - block_size) inode.word0
    then ok fs
    else (let unallocated_block = block_round inode.word0 + 1 in
        allocate (block_round end - unallocated_block) unallocated_block inode.slots fs >>= λ r.
        ok (put_inode r.1 idx (record inode { slots = r.0; word0 = end })))

-- The preparation of a write: the size that is left of it, and the file system.
unfoldable pub prepare_write : Fs → ℕ → Inode → ℕ → ℕ → Outcome (ℕ × Fs)
unfolding grow
prepare_write fs idx inode offset size =
    let end = (offset + size) % 4294967296 in
    if leb end inode.word0
    then ok (size, fs)
    else grow fs idx inode end >>= λ fs'.
        ok (if ltb file_max_size end then sub32 inode.word0 offset else size, fs')

-- NUM_BITMAP_BYTES
abbrev pub num_bitmap_bytes : ℕ
num_bitmap_bytes = 16

-- The bytes of block 0: the bitmap, and what is behind it.
abbrev pub block_0 : Fs → Mem
block_0 fs q = if ltb q num_bitmap_bytes then get_or fs.bitmap q 0 else fs.disk q

-- The `n` bytes from `p` on.
abbrev pub bytes_from : Mem → ℕ → ℕ → List ℕ
bytes_from m zero p = []
bytes_from m (suc n) p = m p ∷ bytes_from m n (p + 1)

-- The file system with the bytes of block 0 replaced.
unfoldable pub with_block_0 : Fs → Mem → Fs
with_block_0 fs m = record fs { bitmap = bytes_from m num_bitmap_bytes 0; disk = m }

-- One memcpy of `n` bytes between byte `at` of a block and the buffer. The bytes of the blocks from 1
-- to 8 are the inode table, those behind the last block are outside `fs`.
unfoldable pub move_block : Bool → ℕ → ℕ → ℕ → Fs → Mem → ℕ → Outcome (Fs × Mem)
unfolding copy_between with_block_0
move_block is_read n block at fs user buf =
    if n == 0
    then ok (fs, user)
    else if leb num_blocks block
    then fault
    else if block == 0
    then ok (
        if is_read
        then (fs, copy_between n user buf (block_0 fs) at)
        else (with_block_0 fs (copy_between n (block_0 fs) at user buf), user))
    else if ltb block first_data_block
    then beyond
    else if is_read
    then ok (fs, copy_between n user buf fs.disk (block * block_size + at))
    else ok (record fs { disk = copy_between n fs.disk (block * block_size + at) user buf }, user)

-- The loop over the blocks behind the first.
unfoldable pub move_rest : ℕ → Bool → Inode → ℕ → ℕ → ℕ → ℕ → ℕ → Fs → Mem → Outcome (ℕ × Fs × Mem)
unfolding move_block get_block_from_inode_offset
move_rest zero is_read inode buf size offset buf_offset total fs user = spin
move_rest (suc fuel) is_read inode buf size offset buf_offset total fs user =
    let n = min (min size block_size) (sub32 inode.word0 offset) in
    get_block_from_inode_offset inode offset >>= λ block.
    move_block is_read n block 0 fs user (buf + buf_offset) >>= λ r.
    if ltb size block_size
    then ok ((total + n) % 4294967296, r.0, r.1)
    else move_rest fuel is_read inode buf (size - block_size) ((offset + n) % 4294967296)
        ((buf_offset + n) % 4294967296) ((total + n) % 4294967296) r.0 r.1

-- The move itself, behind the preparation. Each round of the loop but the last takes a block's size
-- from `size`.
unfoldable pub move_bytes : Bool → Inode → ℕ → ℕ → ℕ → Fs → Mem → Outcome (ℕ × Fs × Mem)
unfolding move_rest
move_bytes is_read inode offset size buf fs user =
    let n = min (min size (block_size - offset % block_size)) (sub32 inode.word0 offset) in
    get_block_from_inode_offset inode offset >>= λ block.
    move_block is_read n block (offset % block_size) fs user buf >>= λ r.
    move_rest (size / block_size + 1) is_read inode buf (size - n) ((offset + n) % 4294967296) n n
      r.0 r.1

unfoldable pub fs_read_bytes : Fs → Mem → ℕ → ℕ → ℕ → ℕ → Outcome (ℕ × Fs × Mem)
unfolding move_bytes
fs_read_bytes fs user idx offset size buf = follow_symlink fs idx >>= λ followed. elim followed [
  | none ↦ fault
  | some file ↦ inode_at fs file >>= λ inode. move_bytes true inode offset size buf fs user
]

unfoldable pub fs_write_bytes : Fs → Mem → ℕ → ℕ → ℕ → ℕ → Outcome (ℕ × Fs × Mem)
unfolding move_bytes prepare_write
fs_write_bytes fs user idx offset size buf = follow_symlink fs idx >>= λ followed. elim followed [
  | none ↦ fault
  | some file ↦ inode_at fs file >>= λ inode.
      prepare_write fs file inode offset size >>= λ (size', fs').
      inode_at fs' file >>= λ inode'. move_bytes false inode' offset size' buf fs' user
]
