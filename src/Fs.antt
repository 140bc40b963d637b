-- ===== src/Fs.antt =====
-- kernel/include/fs_defs.h and kernel/src/fs.c: the file system in memory. Its parts are modules:
-- the state (Defs), blocks, inodes, symbolic links, file contents, path look-up.
pub mod Defs
pub mod Blocks
pub mod Inodes
pub mod Links
pub mod Bytes
pub mod Paths
