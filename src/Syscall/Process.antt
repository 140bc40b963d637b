-- ===== src/Syscall/Process.antt =====
-- sys_spawn_proc, sys_exit, sys_wait and sys_sbrk of kernel/src/syscall.c.
pub mod Wait
use foxtail.Common.{
  ℕ, zero, suc, ◌+◌, ◌%◌, Option, none, some, Bool, List, [], ◌∷◌, Outcome, ok, fault, ◌>>=◌, not,
  ◌==◌, ◌||◌, if◌then◌else◌,
}
use foxtail.Fs.Defs.{inode_at, file, same_type}
use foxtail.Fs.Links.{follow_symlink}
use foxtail.Fs.Paths.{get_inode_by_path}
use foxtail.Kernel.{
  Kernel, Regs, Reply, Call, returns, yields, Proc, waiting_on_pid, fail, get_current_proc,
  set_current_proc, cwd_of, is_valid_user_addr, user_string, minus_one,
}
use foxtail.Syscall.Pipe.{bind_call}
use foxtail.Process.Table.{proc_at, put_proc}
use foxtail.Process.Break.{sbrk_helper}
use foxtail.Process.Exec.{Statics, exec_helper}
use foxtail.Process.Cleanup.{cleanup_proc}

-- The caller becomes the parent; the new process starts in the caller's directory.
unfoldable pub adopt : Option ℕ × Kernel → Reply
adopt (none, k) = fail k
adopt (some idx, k) = get_current_proc k >>= λ curr. proc_at k idx >>= λ p. ok (
  p.pid,
  put_proc k idx (record p { parent_pid = curr.pid; parent_idx = k.current; cwd = curr.cwd }),
)

-- The program is found, and a link followed; a link that leads nowhere is read all the same.
unfoldable pub spawn_at : Statics → Regs → Kernel → ℕ → Reply
unfolding adopt
spawn_at g s k found = follow_symlink k.fs found >>= λ followed. elim followed [
  | none ↦ fault
  | some prog ↦ inode_at k.fs prog >>= λ inode.
      if not (same_type inode.file_type file)
      then fail k
      else exec_helper g k prog s.ecx s.edx s.esi s.edi >>= adopt
]

unfoldable pub sys_spawn_proc : Statics → Regs → Kernel → Reply
unfolding spawn_at
sys_spawn_proc g s k =
    if not (is_valid_user_addr s.ebx) || not (is_valid_user_addr s.edx)
    then fail k
    else get_current_proc k >>= λ p. cwd_of p >>= λ cwd.
        get_inode_by_path k.fs cwd (user_string k.user s.ebx) >>= λ prog. elim prog [
          | none ↦ fail k
          | some found ↦ spawn_at g s k found
        ]

-- The process gives up the processor, and the scheduler does not choose it again.
unfoldable pub sys_exit : Regs → Kernel → Call
sys_exit s k = bind_call (cleanup_proc k k.current) λ k'.
    bind_call (get_current_proc k')
      λ p. yields (set_current_proc k' (record p { exit_code = s.ebx })) λ k''. ok (s.eax, k'')

-- The first slot with number `pid`, from `i` on, if the parent's number is `parent`. Slots that are
-- not in use are looked at as well.
unfoldable pub find_child : List Proc → ℕ → ℕ → ℕ → Option ℕ
find_child [] pid parent i = none
find_child (p ∷ ptable) pid parent i =
    if p.pid == pid
    then (if p.parent_pid == parent then some i else none)
    else find_child ptable pid parent (i + 1)

-- `s->eax = curr_proc->exit_code`, when the process in slot `idx` runs again.
unfoldable pub wait_result : ℕ → Kernel → Reply
wait_result idx k = proc_at k idx >>= λ p. ok (p.exit_code, k)

unfoldable pub wait_for : Kernel → Proc → Option ℕ → Call
unfolding wait_result
wait_for k p none = returns (fail k)
wait_for k p (some i) =
    yields (set_current_proc k (record p { status = waiting_on_pid; waiting_on = i }))
      (wait_result k.current)

unfoldable pub sys_wait : Regs → Kernel → Call
unfolding wait_for find_child
sys_wait s k = bind_call (get_current_proc k) λ p. wait_for k p (find_child k.ptable s.ebx p.pid 0)

-- The break that the call returns is the old one.
unfoldable pub sys_sbrk : Regs → Kernel → Reply
sys_sbrk s k = get_current_proc k >>= λ p.
    sbrk_helper k.frames k.pages p.cr3 p.brk s.ebx >>= λ (brk, frames, pages).
    ok (
      p.brk,
      set_current_proc (record k { frames = frames; pages = pages }) (record p { brk = brk }),
    )
