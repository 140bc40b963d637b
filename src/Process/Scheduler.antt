-- ===== src/Process/Scheduler.antt =====
-- scheduler of kernel/src/proc.c. `scheduler_proc_index` is the kernel's `current`.
pub mod Ready
pub mod Reaped
pub mod Fair
use foxtail.Common.{
  ℕ, zero, suc, ◌+◌, ◌%◌, Bool, true, false, not, Option, none, some, List, [], ◌∷◌, Outcome, ok,
  panic, fault, spin, ◌>>=◌, ◌==◌, if◌then◌else◌,
}
use foxtail.Fs.Paths.{get_inode_by_path}
use foxtail.Kernel.{
  Kernel, Proc, ProcStatus, unused, embryo, runnable, waiting_on_pid, waiting_on_stdin,
  waiting_on_pipe, killed, pipe_at, max_procs,
}
use foxtail.Process.Table.{proc_at, put_proc, proc_alive, is_killed}
use foxtail.Process.Exec.{Statics, exec_helper}

-- "~/bin/sh"
abbrev pub shell_path : List ℕ
shell_path = b'~' ∷ b'/' ∷ b'b' ∷ b'i' ∷ b'n' ∷ b'/' ∷ b's' ∷ b'h' ∷ []

-- `sh_proc_pid = new_sh->pid`; a null `new_sh` is read all the same.
adopt_shell : Option ℕ × Kernel → Outcome Kernel
adopt_shell (none, k) = fault
adopt_shell (some idx, k) = proc_at k idx >>= λ p. ok (record k { sh_pid = p.pid })

unfoldable pub start_shell : Statics → Kernel → Outcome Kernel
unfolding adopt_shell
start_shell g k = get_inode_by_path k.fs 0 shell_path >>= λ found. elim found [
  | none ↦ panic
  | some sh ↦ exec_helper g k sh 0 0 0 0 >>= adopt_shell
]

-- A killed process whose parent is not alive gives up its slot.
unfoldable pub reap : Kernel → ℕ → Outcome Kernel
unfolding proc_alive
reap k i = proc_at k i >>= λ p. proc_at k p.parent_idx >>= λ parent.
    ok (if proc_alive parent.status then k else put_proc k i (record p { status = unused }))

-- Process `i` runs again.
abbrev pub wake : Kernel → ℕ → Proc → Kernel
wake k i p = record (put_proc k i (record p { status = runnable })) { current = i }

-- A killed process: the shell is started anew.
unfoldable pub visit_killed : Statics → Kernel → ℕ → Proc → Outcome Kernel
unfolding start_shell reap
visit_killed g k i p = (if p.pid == k.sh_pid then start_shell g k else ok k) >>= λ k'. reap k' i

-- What one round of the loop does with slot `i`: `true` where the scheduler returns with it.
unfoldable pub visit_as : Statics → Kernel → ℕ → Proc → ProcStatus → Outcome (Bool × Kernel)
unfolding visit_killed
visit_as g k i p unused = ok (false, k)
visit_as g k i p embryo = ok (true, record k { current = i })
visit_as g k i p runnable = ok (true, record k { current = i })
visit_as g k i p waiting_on_pid = proc_at k p.waiting_on >>= λ target. ok (
    if is_killed target.status
    then (true, wake k i (record p { exit_code = target.exit_code }))
    else (false, k))
visit_as g k i p waiting_on_stdin =
    ok (if k.tty.read_ptr == k.tty.write_ptr then (false, k) else (true, wake k i p))
visit_as g k i p waiting_on_pipe = pipe_at k p.waiting_on >>= λ q.
    ok (if q.write_ptr == q.read_ptr then (false, k) else (true, wake k i p))
visit_as g k i p killed = visit_killed g k i p >>= λ k'. ok (false, k')

unfoldable pub visit : Statics → Kernel → ℕ → Outcome (Bool × Kernel)
unfolding visit_as
visit g k i = proc_at k i >>= λ p. visit_as g k i p p.status

-- The loop `for (;;)`, from the slot behind `i` on.
unfoldable pub scan : ℕ → Statics → Kernel → ℕ → Outcome Kernel
unfolding visit
scan zero g k i = spin
scan (suc fuel) g k i =
    let j = (i + 1) % max_procs in
    visit g k j >>= λ r. elim r.0 [ true ↦ ok r.1 | false ↦ scan fuel g r.1 j ]

unfoldable pub scheduler : ℕ → Statics → Kernel → Outcome Kernel
unfolding scan
scheduler fuel g k = scan fuel g k k.current
