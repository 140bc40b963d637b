-- ===== src/KString.antt =====
-- kernel/src/kstring.c: strings and blocks of bytes in memory.
-- Memory is a byte at each address; a loop that a NUL byte ends runs on fuel.
mod Text
mod Blocks
unfoldable pub use Text.*
unfoldable pub use Blocks.*
