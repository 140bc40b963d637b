-- ===== src/Syscall/Transfer/Files.antt =====
-- sys_read of kernel/src/syscall.c on a regular file.
use foxtail.Kernel.{Kernel}
