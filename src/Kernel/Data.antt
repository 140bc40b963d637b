-- ===== src/Kernel/Data.antt =====
-- The data of kernel/include/proc.h, syscall.h and interrupt.h.
use foxtail.Common.{ℕ, List, Option, Bool, true, false}

pub data ProcStatus : Type 0 where
  unused embryo runnable waiting_on_pid waiting_on_stdin waiting_on_pipe killed : ProcStatus

pub data FdStatus : Type 0 where
  fd_unmapped fd_stdin fd_stdout fd_stderr fd_regular_file fd_regular_directory fd_pipe : FdStatus

-- The union of `struct fd`: a null file pointer, an inode's index, or a pipe's index.
pub data FdData : Type 0 where
  no_file : FdData
  file_ptr : ℕ → FdData
  pipe_no : ℕ → FdData

pub record Fd : Type 0 where
  pub status : FdStatus
  pub mode : ℕ
  pub target : FdData
  pub ptr : ℕ

-- `struct proc` without the registers and kernel stacks of a context switch.
pub record Proc : Type 0 where
  pub present : Bool
  pub pid : ℕ
  pub cr3 : ℕ
  pub entry : ℕ
  pub name : List ℕ
  pub status : ProcStatus
  pub parent_pid : ℕ
  pub parent_idx : ℕ
  pub waiting_on : ℕ
  pub brk : ℕ
  pub exit_code : ℕ
  pub cwd : Option ℕ
  pub fds : List Fd

pub record PipeData : Type 0 where
  pub num_refs : ℕ
  pub read_ptr : ℕ
  pub write_ptr : ℕ
  pub internal_write_ptr : ℕ

pub data TtyMode : Type 0 where
  mode_scancode mode_raw mode_cooked : TtyMode

pub record Tty : Type 0 where
  pub mode : TtyMode
  pub input_buffer : List ℕ
  pub read_ptr : ℕ
  pub write_ptr : ℕ
  pub internal_write_ptr : ℕ
  pub left_shift : Bool
  pub right_shift : Bool

-- `struct syscall_registers`: the registers that system calls use.
pub record Regs : Type 0 where
  pub eax : ℕ
  pub ebx : ℕ
  pub ecx : ℕ
  pub edx : ℕ
  pub esi : ℕ
  pub edi : ℕ

-- MAX_FDS, MAX_PROCS, PIPE_BUF_SIZE, NUM_PIPE_BUFS, INPUT_BUFFER_LEN, HIGHER_HALF_BASE
abbrev pub max_fds : ℕ
max_fds = 16

abbrev pub max_procs : ℕ
max_procs = 256

abbrev pub pipe_buf_size : ℕ
pipe_buf_size = 16384

abbrev pub num_pipe_bufs : ℕ
num_pipe_bufs = 16

abbrev pub input_buffer_len : ℕ
input_buffer_len = 1024

abbrev pub higher_half_base : ℕ
higher_half_base = 3221225472

-- -1, -2 and -3 as a `u32`
abbrev pub minus_one : ℕ
minus_one = 4294967295

abbrev pub minus_two : ℕ
minus_two = 4294967294

abbrev pub minus_three : ℕ
minus_three = 4294967293

abbrev pub same_status : FdStatus → FdStatus → Bool
same_status fd_unmapped fd_unmapped = true
same_status fd_stdin fd_stdin = true
same_status fd_stdout fd_stdout = true
same_status fd_stderr fd_stderr = true
same_status fd_regular_file fd_regular_file = true
same_status fd_regular_directory fd_regular_directory = true
same_status fd_pipe fd_pipe = true
same_status _ _ = false
