-- ===== src/Syscall/Open.antt =====
-- sys_open, sys_reopen, sys_close, sys_set_ptr and sys_ftype of kernel/src/syscall.c.
pub mod Close
pub mod Install
pub mod Descriptors
use foxtail.Common.{
  ℕ, zero, suc, ◌+◌, ◌%◌, Option, none, some, Bool, List, [], ◌∷◌, Outcome, ok, panic, ◌>>=◌, leb,
  ltb, min, not, ◌||◌, if◌then◌else◌,
}
use foxtail.Fs.Defs.{Fs, unallocated, file, directory, symlink, inode_at, FileType}
use foxtail.Fs.Inodes.{acquire_inode, release_inode}
use foxtail.Fs.Links.{follow_symlink}
use foxtail.Fs.Paths.{get_inode_by_path}
use foxtail.Kernel.{
  Kernel, Regs, Reply, Proc, Fd, FdStatus, fd_unmapped, fd_stdin, fd_stdout, fd_stderr,
  fd_regular_file, fd_regular_directory, fd_pipe, FdData, file_ptr, fail, get_current_proc,
  set_current_proc, fd_at, set_fd, file_of, pipe_of, cwd_of, pipe_at, set_pipe, is_valid_user_addr,
  user_string, same_status, max_fds, minus_one,
}

-- The status that the `if` ladder on the target's type sets; `none` is the error for a link that
-- leads nowhere.
kind_status : FileType → Outcome FdStatus
kind_status file = ok fd_regular_file
kind_status directory = ok fd_regular_directory
kind_status _ = panic

link_status : Fs → Option ℕ → Outcome (Option FdStatus)
link_status fs none = ok none
link_status fs (some idx) =
    inode_at fs idx >>= λ t. kind_status t.file_type >>= λ status. ok (some status)

status_for : Fs → ℕ → FileType → Outcome (Option FdStatus)
status_for fs target file = ok (some fd_regular_file)
status_for fs target directory = ok (some fd_regular_directory)
status_for fs target symlink = follow_symlink fs target >>= λ followed. link_status fs followed
status_for fs target unallocated = panic

unfoldable pub open_status : Fs → ℕ → Outcome (Option FdStatus)
unfolding status_for link_status kind_status
open_status fs target = inode_at fs target >>= λ inode. status_for fs target inode.file_type

-- `for (i = 0; i < MAX_FDS; i++) if (fds[i].status == FD_UNMAPPED)`, from `i` on.
unfoldable pub first_unmapped : List Fd → ℕ → Option ℕ
first_unmapped [] i = none
first_unmapped (d ∷ fds) i =
    if same_status d.status fd_unmapped then some i else first_unmapped fds (i + 1)

-- The descriptor, once it has a status.
install : Kernel → Proc → ℕ → ℕ → ℕ → FdStatus → Reply
install k p i target mode status = acquire_inode k.fs target >>= λ fs. ok (
  i,
  set_fd (record k { fs = fs }) p i
      (record { status = status; mode = mode; target = file_ptr target; ptr = 0 }),
)

install_open : Kernel → Proc → ℕ → ℕ → ℕ → Option FdStatus → Reply
install_open k p i target mode none = fail k
install_open k p i target mode (some status) = install k p i target mode status

-- The part of sys_open after the look-up.
unfoldable pub open_at : Kernel → Proc → ℕ → ℕ → Reply
unfolding install install_open
open_at k p target mode = elim (first_unmapped p.fds 0) [
  | none ↦ fail k
  | some i ↦ open_status k.fs target >>= λ status. install_open k p i target mode status
]

pub sys_open : Regs → Kernel → Reply
sys_open s k =
    if not (is_valid_user_addr s.ebx)
    then fail k
    else get_current_proc k >>= λ p. cwd_of p >>= λ cwd.
        get_inode_by_path k.fs cwd (user_string k.user s.ebx) >>= λ found. elim found [
          | none ↦ fail k
          | some target ↦ open_at k p target s.ecx
        ]

-- `if (status == FD_REGULAR_FILE || status == FD_REGULAR_DIRECTORY) release_inode(…)`
pub release_file : Fs → Fd → Outcome Fs
release_file fs d =
    if same_status d.status fd_regular_file || same_status d.status fd_regular_directory
    then (file_of d.target >>= λ i. release_inode fs i)
    else ok fs

-- Whatever status the ladder found, FD_REGULAR_FILE is written last.
reopen_as : Kernel → Proc → ℕ → ℕ → ℕ → Option FdStatus → Reply
unfolding install
reopen_as k p i target mode none = fail k
reopen_as k p i target mode (some status) = install k p i target mode fd_regular_file

-- The part of sys_reopen after the look-up.
pub reopen_at : Kernel → Proc → ℕ → ℕ → ℕ → Reply
unfolding reopen_as release_file
reopen_at k p i target mode = fd_at p i >>= λ d. release_file k.fs d >>= λ fs.
    open_status fs target >>= λ status. reopen_as (record k { fs = fs }) p i target mode status

-- The bound is `ebx > MAX_FDS`: it lets 16 pass.
pub sys_reopen : Regs → Kernel → Reply
sys_reopen s k =
    if ltb max_fds s.ebx || not (is_valid_user_addr s.ecx)
    then fail k
    else get_current_proc k >>= λ p. cwd_of p >>= λ cwd.
        get_inode_by_path k.fs cwd (user_string k.user s.ecx) >>= λ found. elim found [
          | none ↦ fail k
          | some target ↦ reopen_at k p s.ebx target s.edx
        ]

-- `pipe_data[pipe_idx].num_refs--` in `u32`
pub drop_pipe : Kernel → ℕ → Outcome Kernel
drop_pipe k i = pipe_at k i >>= λ q.
    ok (set_pipe k i (record q { num_refs = (q.num_refs + 4294967295) % 4294967296 }))

-- What closing a descriptor releases: a file, an end of a pipe, or nothing.
pub release_fd : Kernel → Fd → Outcome Kernel
unfolding drop_pipe release_file
release_fd k d =
    if same_status d.status fd_pipe
    then (pipe_of d.target >>= λ i. drop_pipe k i)
    else (release_file k.fs d >>= λ fs. ok (record k { fs = fs }))

-- The part of sys_close behind the bound.
pub close_at : ℕ → Kernel → Proc → Fd → Reply
unfolding release_fd
close_at i k p d =
    if same_status d.status fd_unmapped
    then fail k
    else (release_fd k d >>= λ k'. ok (0, set_fd k' p i (record d { status = fd_unmapped })))

unfoldable pub sys_close : Regs → Kernel → Reply
unfolding close_at
sys_close s k =
    if leb max_fds s.ebx
    then fail k
    else get_current_proc k >>= λ p. fd_at p s.ebx >>= λ d. close_at s.ebx k p d

-- `file_data.size` is the union's first word, whatever the inode's type.
pub sys_set_ptr : Regs → Kernel → Reply
sys_set_ptr s k =
    if leb max_fds s.ebx
    then fail k
    else get_current_proc k >>= λ p. fd_at p s.ebx >>= λ d.
        if not (same_status d.status fd_regular_file)
        then fail k
        else file_of d.target >>= λ i. inode_at k.fs i >>= λ inode.
            let ptr = min s.ecx inode.word0 in ok (ptr, set_fd k p s.ebx (record d { ptr = ptr }))

-- SYS_FTYPE_FILE, SYS_FTYPE_DIR and SYS_FTYPE_SYMLINK.
type_code : FileType → Outcome ℕ
type_code file = ok 1
type_code directory = ok 2
type_code symlink = ok 3
type_code unallocated = panic

ftype_code : Fs → Fd → FdStatus → Outcome ℕ
ftype_code fs d fd_stdin = ok 4
ftype_code fs d fd_stdout = ok 4
ftype_code fs d fd_stderr = ok 4
ftype_code fs d fd_unmapped = ok minus_one
ftype_code fs d fd_pipe = ok minus_one
ftype_code fs d _ = file_of d.target >>= λ i. inode_at fs i >>= λ inode. type_code inode.file_type

pub sys_ftype : Regs → Kernel → Reply
unfolding ftype_code type_code
sys_ftype s k =
    if leb max_fds s.ebx
    then fail k
    else get_current_proc k >>= λ p.
        fd_at p s.ebx >>= λ d. ftype_code k.fs d d.status >>= λ code. ok (code, k)
