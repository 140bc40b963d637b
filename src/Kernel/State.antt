-- ===== src/Kernel/State.antt =====
-- The kernel's state, and the access of a system call to the calling process.
use foxtail.Common.{ℕ, List, none, some, Bool, get_elem?, set, Mem, Outcome, ok, fault, ltb}
use foxtail.Fs.Defs.{Fs}
use foxtail.PageAlloc.{Pages}
use foxtail.Kernel.Data.{
  Proc, Fd, FdData, no_file, file_ptr, pipe_no, PipeData, Tty, higher_half_base, minus_one,
}

-- `frames n i` is word `i` of physical page `n`; `pipe_buffers` is the flat array; `console` is what
-- has been printed for the user, in order; `user` is the memory of the calling process.
pub record Kernel : Type 0 where
  pub fs : Fs
  pub pages : Pages
  pub frames : ℕ → ℕ → ℕ
  pub ptable : List Proc
  pub current : ℕ
  pub next_pid : ℕ
  pub sh_pid : ℕ
  pub pipes : List PipeData
  pub pipe_buffers : Mem
  pub tty : Tty
  pub console : List ℕ
  pub user : Mem

-- What a system call leaves: the value of `eax`, and the kernel.
abbrev pub Reply : Type 0
Reply = Outcome (ℕ × Kernel)

-- A system call may give up the processor by `int $0x20` in its middle: then it is the state so far
-- and what it does when it is scheduled again.
pub data Call : Type 0 where
  returns : Reply → Call
  yields : Kernel → (Kernel → Reply) → Call

abbrev pub fail : Kernel → Reply
fail k = ok (minus_one, k)

-- `get_current_proc()`
abbrev pub get_current_proc : Kernel → Outcome Proc
get_current_proc k = elim (get_elem? k.ptable k.current) [ none ↦ fault | some p ↦ ok p ]

abbrev pub set_current_proc : Kernel → Proc → Kernel
set_current_proc k p = record k { ptable = set k.ptable k.current p }

-- `curr_proc->fds[i]`
abbrev pub fd_at : Proc → ℕ → Outcome Fd
fd_at p i = elim (get_elem? p.fds i) [ none ↦ fault | some d ↦ ok d ]

abbrev pub set_fd : Kernel → Proc → ℕ → Fd → Kernel
set_fd k p i d = set_current_proc k (record p { fds = set p.fds i d })

-- `fd.data.file` as a pointer that is read: anything but an inode's address is a fault.
abbrev pub file_of : FdData → Outcome ℕ
file_of no_file = fault
file_of (file_ptr i) = ok i
file_of (pipe_no i) = fault

-- `fd.data.pipe_idx`
abbrev pub pipe_of : FdData → Outcome ℕ
pipe_of no_file = ok 0
pipe_of (file_ptr i) = fault
pipe_of (pipe_no i) = ok i

-- `curr_proc->cwd`
abbrev pub cwd_of : Proc → Outcome ℕ
cwd_of p = elim p.cwd [ none ↦ fault | some i ↦ ok i ]

abbrev pub pipe_at : Kernel → ℕ → Outcome PipeData
pipe_at k i = elim (get_elem? k.pipes i) [ none ↦ fault | some p ↦ ok p ]

abbrev pub set_pipe : Kernel → ℕ → PipeData → Kernel
set_pipe k i p = record k { pipes = set k.pipes i p }

-- `is_valid_user_addr`
abbrev pub is_valid_user_addr : ℕ → Bool
is_valid_user_addr addr = ltb addr higher_half_base
