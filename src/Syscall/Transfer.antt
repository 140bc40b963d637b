-- ===== src/Syscall/Transfer.antt =====
-- sys_read and sys_write of kernel/src/syscall.c.
pub mod Files
use foxtail.Common.{
  ℕ, zero, suc, ◌+◌, ◌/◌, ◌%◌, Bool, true, false, Option, List, [], ◌∷◌, ◌++◌, Mem, Outcome, ok,
  ◌>>=◌, leb, not, ◌==◌, ◌||◌, if◌then◌else◌,
}
use foxtail.Fs.Bytes.{fs_read_bytes, fs_write_bytes}
use foxtail.Kernel.{
  Kernel, Regs, Reply, Call, returns, yields, Proc, Fd, FdStatus, fd_stdin, fd_stdout, fd_stderr,
  fd_regular_file, fd_pipe, get_current_proc, fd_at, set_fd, file_of, pipe_of, is_valid_user_addr,
  same_status, max_fds, minus_one, minus_two, minus_three,
}
use foxtail.Syscall.Pipe.{write_pipe, read_pipe, bind_call}
use foxtail.Tty.{read_stdin}

-- `mode & SYS_OPEN_FILE_MODE_READ`, `mode & SYS_OPEN_FILE_MODE_WRITE`
abbrev pub can_read : ℕ → Bool
can_read mode = mode / 2 % 2 == 1

abbrev pub can_write : ℕ → Bool
can_write mode = mode / 4 % 2 == 1

-- The `n` bytes at `p`.
abbrev pub bytes_at : Mem → ℕ → ℕ → List ℕ
bytes_at m zero p = []
bytes_at m (suc n) p = m p ∷ bytes_at m n (p + 1)

-- The branch of a regular file: the descriptor's pointer moves by the bytes that were written.
unfoldable pub write_file : Regs → Kernel → Proc → Fd → Reply
write_file s k p d = file_of d.target >>= λ i.
    fs_write_bytes k.fs k.user i d.ptr s.edx s.ecx >>= λ (count, fs, user). ok (
      count,
      set_fd (record k { fs = fs; user = user }) p s.ebx
          (record d { ptr = (d.ptr + count) % 4294967296 }),
    )

-- The branches. What is printed leaves `eax` as it was.
unfoldable pub write_to : Regs → Kernel → Proc → Fd → Reply
unfolding write_file
write_to s k p d =
    if same_status d.status fd_stdout || same_status d.status fd_stderr
    then ok (s.eax, record k { console = k.console ++ bytes_at k.user s.edx s.ecx })
    else if same_status d.status fd_pipe
    then (pipe_of d.target >>= λ i. write_pipe s k i)
    else write_file s k p d

abbrev pub is_writable : FdStatus → Bool
is_writable status =
    same_status status fd_regular_file
    || same_status status fd_pipe
    || same_status status fd_stdout
    || same_status status fd_stderr

unfoldable pub sys_write : Regs → Kernel → Reply
unfolding write_to
sys_write s k =
    if not (is_valid_user_addr s.ecx)
    then ok (minus_one, k)
    else get_current_proc k >>= λ p.
        if leb max_fds s.ebx
        then ok (minus_two, k)
        else fd_at p s.ebx >>= λ d.
            if not (is_writable d.status)
            then ok (minus_two, k)
            else if not (can_write d.mode)
            then ok (minus_three, k)
            else write_to s k p d

unfoldable pub read_file : Regs → Kernel → Proc → Fd → Reply
read_file s k p d = file_of d.target >>= λ i.
    fs_read_bytes k.fs k.user i d.ptr s.edx s.ecx >>= λ (count, fs, user). ok (
      count,
      set_fd (record k { fs = fs; user = user }) p s.ebx
          (record d { ptr = (d.ptr + count) % 4294967296 }),
    )

unfoldable pub read_from : Regs → Kernel → Proc → Fd → Call
unfolding read_file
read_from s k p d =
    if same_status d.status fd_stdin
    then read_stdin s k p
    else if same_status d.status fd_pipe
    then bind_call (pipe_of d.target) (λ i. read_pipe s k p i)
    else returns (read_file s k p d)

abbrev pub is_readable : FdStatus → Bool
is_readable status =
    same_status status fd_regular_file || same_status status fd_pipe || same_status status fd_stdin

unfoldable pub sys_read : Regs → Kernel → Call
unfolding read_from
sys_read s k =
    if not (is_valid_user_addr s.ecx)
    then returns (ok (minus_one, k))
    else bind_call (get_current_proc k) λ p.
      if leb max_fds s.ebx
      then returns (ok (minus_two, k))
      else bind_call (fd_at p s.ebx) λ d.
        if not (is_readable d.status)
        then returns (ok (minus_two, k))
        else if not (can_read d.mode)
        then returns (ok (minus_three, k))
        else read_from s k p d
