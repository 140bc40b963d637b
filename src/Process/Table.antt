-- ===== src/Process/Table.antt =====
-- alloc_proc, release_proc, proc_alive and get_proc_idx of kernel/src/proc.c. A pointer to a process
-- is its index in the table.
use foxtail.Common.{
  ℕ, ◌+◌, ◌%◌, Bool, true, false, Option, none, some, List, [], ◌∷◌, Outcome, ok, panic, fault,
  replicate, set, get_elem?, if◌then◌else◌,
}
use foxtail.Kernel.{
  Kernel, Proc, ProcStatus, unused, embryo, runnable, waiting_on_pid, waiting_on_stdin,
  waiting_on_pipe, killed, Fd, fd_unmapped, no_file, max_fds,
}

abbrev pub is_unused : ProcStatus → Bool
is_unused unused = true
is_unused _ = false

abbrev pub is_killed : ProcStatus → Bool
is_killed killed = true
is_killed _ = false

unfoldable pub proc_alive : ProcStatus → Bool
proc_alive unused = false
proc_alive embryo = true
proc_alive runnable = true
proc_alive waiting_on_pid = true
proc_alive waiting_on_stdin = true
proc_alive waiting_on_pipe = true
proc_alive killed = false

-- `(struct fd) {0}`
abbrev pub zero_fd : Fd
zero_fd = record { status = fd_unmapped; mode = 0; target = no_file; ptr = 0 }

-- `(struct proc) {0}`, with its number.
abbrev pub zero_proc : ℕ → Proc
zero_proc pid = record {
  present = false;
  pid = pid;
  cr3 = 0;
  entry = 0;
  name = [];
  status = unused;
  parent_pid = 0;
  parent_idx = 0;
  waiting_on = 0;
  brk = 0;
  exit_code = 0;
  cwd = none;
  fds = replicate max_fds zero_fd;
}

-- `for (i = 0; i < MAX_PROCS; i++) if (ptable[i].status == UNUSED)`, from `i` on.
unfoldable pub first_unused : List Proc → ℕ → Option ℕ
first_unused [] i = none
first_unused (p ∷ ptable) i = if is_unused p.status then some i else first_unused ptable (i + 1)

take_slot : Kernel → Option ℕ → Outcome (ℕ × Kernel)
take_slot k none = panic
take_slot k (some i) = ok (
  i,
  record k {
    ptable = set k.ptable i (zero_proc k.next_pid);
    next_pid = (k.next_pid + 1) % 4294967296;
  },
)

unfoldable pub alloc_proc : Kernel → Outcome (ℕ × Kernel)
unfolding take_slot first_unused
alloc_proc k = take_slot k (first_unused k.ptable 0)

-- The process is not marked present to begin with where the function succeeds.
unfoldable pub release_proc : Proc → Bool × Proc
release_proc p = if p.present then (false, p) else (true, record p { present = false })

abbrev pub proc_at : Kernel → ℕ → Outcome Proc
proc_at k i = elim (get_elem? k.ptable i) [ none ↦ fault | some p ↦ ok p ]

abbrev pub put_proc : Kernel → ℕ → Proc → Kernel
put_proc k i p = record k { ptable = set k.ptable i p }
