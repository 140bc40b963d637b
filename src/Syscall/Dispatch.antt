-- ===== src/Syscall/Dispatch.antt =====
-- syscall_interrupt_handler_inner of kernel/src/syscall.c, with the codes of shared/syscall_defs.h.
-- A code that there is not is answered with a message, which is left out.
use foxtail.Common.{ok, ◌==◌, if◌then◌else◌}
use foxtail.Kernel.{Kernel, Regs, Call, returns}
use foxtail.Process.Exec.{Statics}
use foxtail.Syscall.Open.{sys_open, sys_reopen, sys_close, sys_set_ptr, sys_ftype}
use foxtail.Syscall.Info.{
  sys_getpid, sys_file_info, sys_dir_info, sys_dirent_info, sys_symlink_info, sys_pwd, sys_cd,
}
use foxtail.Syscall.Tree.{sys_create, sys_delete}
use foxtail.Syscall.Links.{sys_link, sys_harden}
use foxtail.Syscall.Pipe.{sys_pipe}
use foxtail.Syscall.Transfer.{sys_write, sys_read}
use foxtail.Syscall.Process.{sys_spawn_proc, sys_exit, sys_wait, sys_sbrk}
use foxtail.Tty.{sys_set_tty_mode}

-- SYS_GET_TTY_MODE, 24, calls the function that sets the mode.
unfoldable pub syscall_interrupt_handler_inner : Statics → Regs → Kernel → Call
syscall_interrupt_handler_inner g s k =
    if s.eax == 0
    then returns (sys_write s k)
    else if s.eax == 1
    then sys_read s k
    else if s.eax == 2
    then returns (sys_spawn_proc g s k)
    else if s.eax == 3
    then returns (sys_getpid s k)
    else if s.eax == 4
    then sys_exit s k
    else if s.eax == 5
    then sys_wait s k
    else if s.eax == 6
    then returns (sys_sbrk s k)
    else if s.eax == 7
    then returns (sys_cd s k)
    else if s.eax == 8
    then returns (sys_pwd s k)
    else if s.eax == 9
    then returns (sys_open s k)
    else if s.eax == 10
    then returns (sys_reopen s k)
    else if s.eax == 11
    then returns (sys_close s k)
    else if s.eax == 12
    then returns (sys_set_ptr s k)
    else if s.eax == 13
    then returns (sys_ftype s k)
    else if s.eax == 14
    then returns (sys_file_info s k)
    else if s.eax == 15
    then returns (sys_dir_info s k)
    else if s.eax == 16
    then returns (sys_dirent_info s k)
    else if s.eax == 17
    then returns (sys_symlink_info s k)
    else if s.eax == 18
    then returns (sys_create s k)
    else if s.eax == 19
    then returns (sys_delete s k)
    else if s.eax == 20
    then returns (sys_link s k)
    else if s.eax == 21
    then returns (sys_harden s k)
    else if s.eax == 22
    then returns (sys_pipe s k)
    else if s.eax == 23
    then returns (sys_set_tty_mode s k)
    else if s.eax == 24
    then returns (sys_set_tty_mode s k)
    else returns (ok (s.eax, k))
