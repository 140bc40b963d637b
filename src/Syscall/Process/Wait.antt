-- ===== src/Syscall/Process/Wait.antt =====
-- sys_wait of kernel/src/syscall.c with the scheduler of kernel/src/proc.c.
use foxtail.Common.{ℕ}
use foxtail.Kernel.{Kernel, Proc, waiting_on_pid}

-- Process `i` as sys_wait leaves it while it waits for slot `n`.
abbrev pub waiting : Proc → ℕ → Proc
waiting p n = record p { status = waiting_on_pid; waiting_on = n }
