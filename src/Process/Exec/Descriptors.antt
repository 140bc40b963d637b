-- ===== src/Process/Exec/Descriptors.antt =====
-- The descriptors in exec_helper of kernel/src/exec.c: the standard ones, and the caller's that the
-- custom commands hand over.
use foxtail.Common.{
  ℕ, zero, suc, ◌+◌, ◌%◌, List, [], ◌∷◌, set, Outcome, ok, ◌>>=◌, ◌==◌, ◌||◌, if◌then◌else◌,
}
use foxtail.Fs.Inodes.{acquire_inode}
use foxtail.Kernel.{
  Kernel, Fd, fd_unmapped, fd_stdin, fd_stdout, fd_stderr, fd_regular_file, fd_regular_directory,
  fd_pipe, no_file, file_of, pipe_of, fd_at, pipe_at, set_pipe, same_status, get_current_proc,
  read_u32,
}
use foxtail.Process.Table.{proc_at, put_proc}

-- A terminal's descriptor: SYS_OPEN_FILE_MODE_READ is 2, SYS_OPEN_FILE_MODE_WRITE 4.
abbrev std_out : Fd
std_out = record { status = fd_stdout; mode = 4; target = no_file; ptr = 0 }

abbrev std_in : Fd
std_in = record { status = fd_stdin; mode = 2; target = no_file; ptr = 0 }

abbrev std_err : Fd
std_err = record { status = fd_stderr; mode = 4; target = no_file; ptr = 0 }

-- Only the status of the others is written.
abbrev unmap_all : List Fd → List Fd
unmap_all [] = []
unmap_all (d ∷ fds) = record d { status = fd_unmapped } ∷ unmap_all fds

abbrev pub standard_fds : List Fd → List Fd
standard_fds (a ∷ b ∷ c ∷ rest) = std_out ∷ std_in ∷ std_err ∷ unmap_all rest
standard_fds fds = fds

-- What the descriptor that is handed over refers to gets one reference more.
unfoldable pub share : Kernel → Fd → Outcome Kernel
share k d =
    if same_status d.status fd_regular_file || same_status d.status fd_regular_directory
    then (file_of d.target >>= λ i. acquire_inode k.fs i >>= λ fs. ok (record k { fs = fs }))
    else if same_status d.status fd_pipe
    then (pipe_of d.target >>= λ i. pipe_at k i >>= λ q.
        ok (set_pipe k i (record q { num_refs = (q.num_refs + 1) % 4294967296 })))
    else ok k

-- SPAWN_CUSTOM_COMMAND_REMAP_FDS: neither number is checked, and what `new_fd` had is lost.
unfoldable pub remap_fd : Kernel → ℕ → ℕ → ℕ → Outcome Kernel
unfolding share
remap_fd k idx curr_fd new_fd = get_current_proc k >>= λ curr. fd_at curr curr_fd >>= λ d.
    proc_at k idx >>= λ p.
    fd_at p new_fd >>= λ old. share (put_proc k idx (record p { fds = set p.fds new_fd d })) d

-- The loop over the commands, each of three words; a command of another type does nothing.
unfoldable pub run_commands : ℕ → Kernel → ℕ → ℕ → Outcome Kernel
unfolding remap_fd
run_commands zero k idx commands = ok k
run_commands (suc rounds) k idx commands =
    (if read_u32 k.user commands == 0
      then remap_fd k idx (read_u32 k.user (commands + 4)) (read_u32 k.user (commands + 8))
      else ok k)
    >>= λ k'. run_commands rounds k' idx (commands + 12)
