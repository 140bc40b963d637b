-- ===== src/Tests/Open.antt =====
-- sys_open and sys_close of kernel/src/syscall.c for one process on a small file system.
use foxtail.Common.{
  ℕ, zero, suc, ◌≡◌, refl, ap, sym, true, false, some, List, [], ◌∷◌, ok, some_injective,
}
use foxtail.Fs.Defs.{Inode, file, directory}
use foxtail.Kernel.{
  Kernel, Regs, Proc, Fd, fd_unmapped, fd_regular_file, no_file, file_ptr, runnable, mode_cooked,
}
use foxtail.Fs.Inodes.{acquire_inode, release_inode}
use foxtail.Syscall.Open.{first_unmapped, open_status, open_at, sys_close}
use foxtail.Syscall.Open.Install.{IsCounted, open_at-IsCounted}
use foxtail.Syscall.Open.Close.{sys_close-IsCounted}

abbrev closed : Fd
closed = record { status = fd_unmapped; mode = 0; target = no_file; ptr = 0 }

abbrev on_file : Fd
on_file = record { status = fd_regular_file; mode = 0; target = file_ptr 1; ptr = 0 }

abbrev pub shell : List Fd → Proc
shell fds = record {
  present = true;
  pid = 1;
  cr3 = 0;
  entry = 0;
  name = [];
  status = runnable;
  parent_pid = 0;
  parent_idx = 0;
  waiting_on = 0;
  brk = 0;
  exit_code = 0;
  cwd = some 0;
  fds = fds;
}

abbrev inode : ℕ → Inode
inode refs = record {
  name = b'f' ∷ [];
  file_type = file;
  parent = 0;
  word0 = 0;
  slots = [];
  valid = 1;
  num_refs = refs;
}

abbrev root : Inode
root = record {
  name = b'~' ∷ [];
  file_type = directory;
  parent = 0;
  word0 = 1;
  slots = 1 ∷ [];
  valid = 1;
  num_refs = 0;
}

-- The root and a file with `refs` references, and the descriptors of the one process.
abbrev pub machine : ℕ → List Fd → Kernel
machine refs fds = record {
  fs = record { bitmap = []; inodes = root ∷ inode refs ∷ []; disk = λ _. 0 };
  pages = record { free_map = []; alloc_ptr = 0 };
  frames = λ _ _. 0;
  ptable = shell fds ∷ [];
  current = 0;
  next_pid = 2;
  sh_pid = 1;
  pipes = [];
  pipe_buffers = λ _. 0;
  tty = record {
    mode = mode_cooked;
    input_buffer = [];
    read_ptr = 0;
    write_ptr = 0;
    internal_write_ptr = 0;
    left_shift = false;
    right_shift = false;
  };
  console = [];
  user = λ _. 0;
}

abbrev pub regs : ℕ → Regs
regs ebx = record { eax = 0; ebx = ebx; ecx = 0; edx = 0; esi = 0; edi = 0 }

before-IsCounted : IsCounted (machine 0 (closed ∷ closed ∷ []))
before-IsCounted zero x e = ap (λ (y : Inode). y.num_refs) (sym (some_injective e))
before-IsCounted (suc zero) x e = ap (λ (y : Inode). y.num_refs) (sym (some_injective e))
before-IsCounted (suc (suc i)) x e = cc

open-IsCounted : IsCounted (machine 1 (on_file ∷ closed ∷ []))
open-IsCounted zero x e = ap (λ (y : Inode). y.num_refs) (sym (some_injective e))
open-IsCounted (suc zero) x e = ap (λ (y : Inode). y.num_refs) (sym (some_injective e))
open-IsCounted (suc (suc i)) x e = cc

opened :
    open_at (machine 0 (closed ∷ closed ∷ [])) (shell (closed ∷ closed ∷ [])) 1 0
    ≡ ok (0, machine 1 (on_file ∷ closed ∷ []))
unfolding open_at first_unmapped open_status acquire_inode
opened = refl

closes :
    sys_close (regs 0) (machine 1 (on_file ∷ closed ∷ []))
    ≡ ok (0, machine 0 (record on_file { status = fd_unmapped } ∷ closed ∷ []))
unfolding sys_close release_inode
closes = refl

open_at-IsCounted_example : IsCounted (machine 1 (on_file ∷ closed ∷ []))
open_at-IsCounted_example =
    open_at-IsCounted (machine 0 (closed ∷ closed ∷ [])) (machine 1 (on_file ∷ closed ∷ []))
      (shell (closed ∷ closed ∷ [])) 1 0 0 before-IsCounted refl opened

sys_close-IsCounted_example :
    IsCounted (machine 0 (record on_file { status = fd_unmapped } ∷ closed ∷ []))
sys_close-IsCounted_example =
    sys_close-IsCounted (regs 0) (machine 1 (on_file ∷ closed ∷ []))
      (machine 0 (record on_file { status = fd_unmapped } ∷ closed ∷ [])) 0 open-IsCounted closes
