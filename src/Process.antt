-- ===== src/Process.antt =====
-- The process table, the loader, the end of a process and the scheduler: kernel/src/proc.c, exec.c,
-- cleanup.c and sbrk_helper of syscall.c.
pub mod Table
pub mod Space
pub mod Break
pub mod Exec
pub mod Cleanup
pub mod Scheduler
