-- ===== src/Fs/Bytes/Growth.antt =====
-- The growth of a file in fs_move_bytes of kernel/src/fs.c.
use foxtail.Common.{ℕ, Mem}
use foxtail.Fs.Defs.{Fs}
use foxtail.Fs.Bytes.{block_0, copy_between}

-- The first bytes of block 0 are replaced.
abbrev overwritten : Fs → ℕ → Mem → ℕ → Mem
overwritten fs size user buf = copy_between size (block_0 fs) 0 user buf
