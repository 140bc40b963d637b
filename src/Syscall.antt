-- ===== src/Syscall.antt =====
-- kernel/src/syscall.c: a function for each system call, of the registers and the kernel's state.
pub mod Open
pub mod Info
pub mod Tree
pub mod Links
pub mod Pipe
pub mod Transfer
pub mod Process
pub mod Dispatch
