-- ===== src/Lib.antt =====
-- Verification library of Foxtail, a small operating system for 32-bit x86.
--
-- The kernel is one program that system calls and interrupts enter. A system call
-- (kernel/src/syscall.c) reads its registers, looks up the calling process and its descriptors
-- (kernel/include/proc.h), and works on the file system in memory (kernel/src/fs.c), on pipes, or on
-- the terminal, whose buffer the keyboard interrupt fills (kernel/src/interrupt.c). What it prints
-- goes through kernel/src/kprintf.c to the screen (kernel/src/vga.c). The scheduler
-- (kernel/src/proc.c) chooses who runs next from the process table, which the loader
-- (kernel/src/exec.c) and the end of a process (kernel/src/cleanup.c) fill and clear.
--
-- Files, with the code that they model:
--   * KString: kernel/src/kstring.c; strings (KString/Text) and blocks (KString/Blocks).
--   * PageAlloc: kernel/src/pgalloc.c; its promises in PageAlloc/Laws.
--   * Fs: kernel/include/fs_defs.h and kernel/src/fs.c: the state (Fs/Defs), alloc_block and
--     free_block (Fs/Blocks), inodes and their reference counts (Fs/Inodes), follow_symlink
--     (Fs/Links), get_inode_by_path (Fs/Paths).
--   * Kernel: the records of kernel/include/proc.h, syscall.h and interrupt.h, the state that system
--     calls share, and their access to the calling process's memory.
--   * Fs/Bytes: fs_move_bytes with its two callers; a file's contents are the bytes of its blocks.
--   * Syscall: one function for each call: sys_open, sys_reopen, sys_close, sys_set_ptr, sys_ftype
--     (Syscall/Open); the informing calls (Syscall/Info); sys_create and sys_delete (Syscall/Tree);
--     sys_link and sys_harden (Syscall/Links); sys_read and sys_write (Syscall/Transfer); sys_pipe and
--     the pipe branches of the two (Syscall/Pipe); sys_spawn_proc, sys_exit, sys_wait and sys_sbrk
--     (Syscall/Process); the dispatcher (Syscall/Dispatch).
--   * Process: the process table (Process/Table) and scheduler (Process/Scheduler) of
--     kernel/src/proc.c, exec_helper (Process/Space for page tables, Process/Exec), sbrk_helper
--     (Process/Break), and cleanup_proc (Process/Cleanup). Physical memory is a word for each index
--     of each frame; an access through a page table that is not there is a fault.
--   * Tty: keyboard_interrupt_handler_inner, the terminal branch of sys_read and the mode calls.
--   * Console: the cursor, the text screen, decimal numbers (Console/Numbers) and vkprintf
--     (Console/Format).
--   * Malloc: user/include/malloc.h, the allocator of user programs (Malloc/Layout: its blocks one
--     behind another).
--   * User: the programs and the rest of their library: printf and sprintf (User/Printf), the Lisp
--     interpreter (User/Lisp: values and environments, parser, printer, evaluator, loop), the line
--     editor (User/Editor: its doubly linked list in a memory of nodes, files, commands), rev
--     (User/Rev), the programs that change the tree (User/Tree), and the shell (User/Shell:
--     arguments, search for programs, commands, input). The last two take the system calls as an
--     interface.
--   * Common holds the shared helpers, Tests the runs at concrete inputs.
--
-- How the code is read. A pointer to an inode is its index; a name or a path is the list of the
-- bytes before its NUL; the union in an inode is a first word and a list of words. An `Outcome` is a
-- value, a panic, a read or write outside an object (`fault`), a move of file data that hits the inode
-- table in place of a data block (`beyond`), or a loop whose fuel is used up (`spin`). Unsigned arithmetic that can wrap has its modulus written out. A system call that gives
-- up the processor in its middle is a `Call`: the state so far and the rest.
--
-- Fuel. follow_symlink runs on 12 rounds, for its limit of 10 links; a path look-up on the path's
-- length; a move of bytes on the number of blocks of its size; the search for a page on the number of
-- words of the map; the scheduler on one round of the table; the digits of a number on 10 rounds; the
-- string loops on fuel that their theorems bound by the string's length; printf on a round for each
-- byte of its format; the Lisp parser on the calls that its theorem counts, and the evaluator on any
-- fuel, since Lisp programs need not end; save_file on the number of lines and two more; the shell's
-- search on the length of its path and one more. User strings end at the address HIGHER_HALF_BASE.
--
-- Not modelled: the saved registers and kernel stacks of a context switch, start-up and descriptor
-- tables, graphics mode, the image builder, and the user programs that only call the system and print.
pub mod Common
pub mod Console
pub mod Fs
pub mod KString
pub mod Kernel
pub mod Malloc
pub mod PageAlloc
pub mod Process
pub mod Syscall
pub mod Tests
pub mod Tty
pub mod User
