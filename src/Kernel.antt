-- ===== src/Kernel.antt =====
-- The state of the kernel that system calls and interrupt handlers share: the process table of
-- kernel/include/proc.h, the pipes of kernel/include/syscall.h, the terminal of
-- kernel/include/interrupt.h, the file system and the pages.
mod Data
mod State
mod User
unfoldable pub use Data.*
unfoldable pub use State.*
unfoldable pub use User.*
