-- ===== src/Tests/Process.antt =====
-- The scheduler, sys_wait, exec_helper and cleanup_proc on a table with a shell and its children.
use foxtail.Common.{
  ℕ, zero, suc, ◌≤◌, ◌<◌, ◌≡◌, ◌≢◌, refl, ap, subst, false, some, List, [], ◌∷◌, ◌++◌, arith, ◌/◌,
  ◌%◌, store_list, Outcome, ok, fault, ◌>>=◌, Bool, replicate, length-replicate, get_elem?,
  some_injective,
}
use foxtail.Fs.Defs.{Inode, file}
use foxtail.Fs.Links.{follow_symlink}
use foxtail.Fs.Bytes.{fs_read_bytes}
use foxtail.PageAlloc.{Pages, alloc_page, next_word, first_bit, free_page}
use foxtail.Kernel.{
  Kernel, Proc, ProcStatus, runnable, waiting_on_pid, waiting_on_pipe, max_procs, read_u32,
}
use foxtail.PageAlloc.{entries}
use foxtail.Process.Table.{zero_proc, proc_at, is_killed, alloc_proc}
use foxtail.Process.Space.{pgsize, translate, map_segment, copy_in, write_word}
use foxtail.Process.Break.{sbrk_helper}
use foxtail.Common.Bits.{test_bit, clear_bit}
use foxtail.Process.Exec.{Statics, exec_helper}
use foxtail.Process.Cleanup.{cleanup_proc, free_tables}
use foxtail.Process.Cleanup.Laws.{cleanup_proc-free_page}
use foxtail.Process.Scheduler.{scheduler}
use foxtail.Process.Scheduler.Ready.{Fits, IsSound, IsReady, IsDue}
use foxtail.Process.Scheduler.Fair.{ahead, scheduler_first, start, turn, scheduler_fair}
use foxtail.Tests.Open.{machine, shell}

abbrev statics : Statics
statics = record { elf_header = λ _. 0; arg_buf = λ _. 0; junk = λ _. 0; kernel_dir = λ _. 0 }

-- A child of the shell.
abbrev child : ℕ → ProcStatus → Proc
child pid status = record (shell []) { pid = pid; parent_pid = 1; status = status; exit_code = 42 }

-- The shell, two children, and free slots; `i` runs.
abbrev table : ℕ → Proc → Proc → Proc → Kernel
table i p q r = record (machine 0 []) {
  ptable = p ∷ q ∷ r ∷ replicate 253 (zero_proc 0);
  current = i;
}

abbrev three : ℕ → Kernel
three i = table i (shell []) (child 2 runnable) (child 3 runnable)

get_elem?-replicate : (n i : ℕ) (p q : Proc) → get_elem? (replicate n p) i ≡ some q → p ≡ q
get_elem?-replicate zero i p q e = cc
get_elem?-replicate (suc n) zero p q e = some_injective e
get_elem?-replicate (suc n) (suc i) p q e = get_elem?-replicate n i p q e

idle_Fits :
    (p : Proc)
    → is_killed p.status ≡ false
    → p.status ≢ waiting_on_pid
    → p.status ≢ waiting_on_pipe
    → p.parent_idx ≡ 0
    → Fits 1 0 p
idle_Fits p alive no_pid no_pipe parent = record {
  not_shell = λ h. cc;
  parent = omega (arith, parent);
  target = λ h. absurd (no_pid h);
  pipe = λ h. absurd (no_pipe h);
}

three-IsSound : (i : ℕ) → IsSound (three i)
three-IsSound i = record {
  size = ap (λ n. suc (suc (suc n))) (length-replicate 253 (zero_proc 0));
  all = fits;
}
  where
    fits : (j : ℕ) (p : Proc) → get_elem? (three 0).ptable j ≡ some p → Fits 1 0 p
    fits zero p e =
        subst (Fits 1 0) (some_injective e) (idle_Fits (shell []) refl (λ h. cc) (λ h. cc) refl)
    fits (suc zero) p e =
        subst (Fits 1 0) (some_injective e)
          (idle_Fits (child 2 runnable) refl (λ h. cc) (λ h. cc) refl)
    fits (suc (suc zero)) p e =
        subst (Fits 1 0) (some_injective e)
          (idle_Fits (child 3 runnable) refl (λ h. cc) (λ h. cc) refl)
    fits (suc (suc (suc j))) p e =
        subst (Fits 1 0) (get_elem?-replicate 253 j (zero_proc 0) p e)
          (idle_Fits (zero_proc 0) refl (λ h. cc) (λ h. cc) refl)

third-IsReady : (i : ℕ) → IsReady (three i) 2
third-IsReady i = record { proc = child 3 runnable; at = refl; awaited = tt }

scheduler_first_example :
    (k' : Kernel) × (scheduler max_procs statics (three 0) ≡ ok k')
    × (k'.current < max_procs)
    × (ahead 0 k'.current ≤ ahead 0 2)
    × IsDue (three 0) k'.current
scheduler_first_example =
    scheduler_first statics (three 0) 2 (three-IsSound 0) (omega arith) (third-IsReady 0)

second_chosen : scheduler max_procs statics (three 0) ≡ ok (three 1)
unfolding scheduler
second_chosen = refl

scheduler_fair_example : 1 < max_procs
scheduler_fair_example =
    scheduler_fair statics 2 (three 0) 1 (three 1) (omega arith)
      (turn (three 0) start refl (three-IsSound 0) (third-IsReady 0) second_chosen λ e. omega arith)

-- A machine whose frame allocator has page 1024 on free, and a process with its directory there.
abbrev with_dir : Kernel
with_dir =
    record (table 0 (record (shell []) { cr3 = 4194304 }) (child 2 runnable) (child 3 runnable)) {
      pages = record { free_map = replicate entries 0; alloc_ptr = 0 };
    }

with_dir_tables :
    free_tables 768 with_dir.pages with_dir.frames (with_dir.frames (4194304 / pgsize)) 0
    ≡ ok with_dir.pages
unfolding free_tables
with_dir_tables = refl

cleanup_proc-free_page_example :
    (free_page with_dir.pages 4194304 ≡ fault)
    × (cleanup_proc with_dir 0 ≡ fault)
    × ((r : Bool × Pages) × (free_page with_dir.pages (4194304 / pgsize) ≡ ok r))
cleanup_proc-free_page_example =
    cleanup_proc-free_page with_dir 0 1024 (record (shell []) { cr3 = 4194304 }) with_dir.pages
      (length-replicate {A = ℕ} entries 0) refl refl (omega arith) (omega arith) with_dir_tables

-- A program of one segment of four bytes at 0x08048000, behind its headers in block 9.
abbrev elf_file : List ℕ
elf_file =
    0x7f ∷ 0x45 ∷ 0x4c ∷ 0x46 ∷ replicate 12 0
    ++ (0 ∷ 0 ∷ 0 ∷ 0 ∷ 0 ∷ 0 ∷ 0 ∷ 0 ∷ 0x02 ∷ 0x80 ∷ 0x04 ∷ 0x08 ∷ 52 ∷ 0 ∷ 0 ∷ 0 ∷ replicate 12 0
        ++ (1 ∷ 0 ∷ 0 ∷ 0 ∷ 0 ∷ 0 ∷ 0 ∷ 0 ∷ 1 ∷ 0 ∷ 0 ∷ 0 ∷ 84 ∷ 0 ∷ 0 ∷ 0 ∷ 0 ∷ 0x80 ∷ 0x04 ∷ 0x08
            ∷ 0 ∷ 0 ∷ 0 ∷ 0 ∷ 4 ∷ 0 ∷ 0 ∷ 0 ∷ 8 ∷ 0 ∷ 0 ∷ 0 ∷ 0 ∷ 0 ∷ 0 ∷ 0 ∷ 0 ∷ 0 ∷ 0 ∷ 0 ∷ 0xde
            ∷ 0xad ∷ 0xbe ∷ 0xef ∷ []))

abbrev program : Inode
program = record {
  name = b'f' ∷ [];
  file_type = file;
  parent = 0;
  word0 = 88;
  slots = 9 ∷ [];
  valid = 1;
  num_refs = 0;
}

abbrev with_program : Kernel
with_program = record (machine 0 []) {
  ptable = shell [] ∷ zero_proc 0 ∷ [];
  pages = record { free_map = 0 ∷ 4294967295 ∷ []; alloc_ptr = 0 };
  fs = record { bitmap = []; inodes = program ∷ []; disk = store_list (λ _. 0) 36864 elf_file };
}

-- What is asked of the loaded program: its number, its entry point, and the word at an address.
loaded : ℕ → Outcome (ℕ × ℕ × ℕ)
loaded v = exec_helper statics with_program 0 0 0 0 0 >>= λ (idx, k). proc_at k 1 >>= λ p.
    translate k.frames p.cr3 v >>= λ n. ok (p.pid, p.entry, k.frames n (v / 4 % 1024))

loaded_word : loaded 0x08048000 ≡ ok (2, 0x08048002, 0xefbeadde)
unfolding loaded exec_helper translate alloc_proc fs_read_bytes follow_symlink read_u32 map_segment
    alloc_page next_word first_bit test_bit clear_bit sbrk_helper copy_in write_word
loaded_word = refl
