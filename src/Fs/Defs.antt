-- ===== src/Fs/Defs.antt =====
-- The data of kernel/include/fs_defs.h. A pointer to an inode is its index in `inodes`; a name is
-- the list of the bytes before its NUL. The union `inode_data` is what it is in memory: a first
-- word (`size`, `num_entries` or `target`) and the words of `blocks` or `direct_files`.
use foxtail.Common.{ℕ, List, none, some, get_elem?, set, Outcome, ok, fault, Mem, Bool, true, false}

pub data FileType : Type 0 where
  unallocated file directory symlink : FileType

abbrev pub same_type : FileType → FileType → Bool
same_type unallocated unallocated = true
same_type file file = true
same_type directory directory = true
same_type symlink symlink = true
same_type _ _ = false

pub record Inode : Type 0 where
  pub name : List ℕ
  pub file_type : FileType
  pub parent : ℕ
  pub word0 : ℕ
  pub slots : List ℕ
  pub valid : ℕ
  pub num_refs : ℕ

-- NDIRECT, FILENAME_MAX_LEN, BLOCK_SIZE, NUM_BLOCKS, NUM_INODE_BLOCKS * BLOCK_SIZE / 128
abbrev pub ndirect : ℕ
ndirect = 21

abbrev pub filename_max_len : ℕ
filename_max_len = 28

abbrev pub block_size : ℕ
block_size = 4096

abbrev pub num_blocks : ℕ
num_blocks = 128

abbrev pub num_inodes : ℕ
num_inodes = 256

-- The array `fs`: its block bitmap, its inode table, and all its bytes as file data sees them.
pub record Fs : Type 0 where
  pub bitmap : List ℕ
  pub inodes : List Inode
  pub disk : Mem

-- `*get_inode_at_idx(idx)`
abbrev pub inode_at : Fs → ℕ → Outcome Inode
inode_at fs idx = elim (get_elem? fs.inodes idx) [ none ↦ fault | some i ↦ ok i ]

abbrev pub put_inode : Fs → ℕ → Inode → Fs
put_inode fs idx i = record fs { inodes = set fs.inodes idx i }

-- `slots[j]` of the union's array, which has NDIRECT words.
abbrev pub slot_at : Inode → ℕ → Outcome ℕ
slot_at i j = elim (get_elem? i.slots j) [ none ↦ fault | some b ↦ ok b ]
