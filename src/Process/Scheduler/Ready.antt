-- ===== src/Process/Scheduler/Ready.antt =====
-- One round of the loop of scheduler in kernel/src/proc.c: which slots it stops at.
use foxtail.Common.{
  ℕ, ◌<◌, ◌≡◌, ◌≢◌, refl, sym, ap, ◌∙◌, subst, Bool, true, false, some, arith, length, get_elem?,
  get_elem?_total, ok, ◌==◌, Bool-cases, inl, inr, some_injective,
}
use foxtail.Kernel.{
  Kernel, Proc, ProcStatus, unused, embryo, runnable, waiting_on_pid, waiting_on_stdin,
  waiting_on_pipe, killed, PipeData, max_procs,
}
use foxtail.Process.Table.{put_proc, proc_alive, is_killed}
use foxtail.Process.Exec.{Statics}
use foxtail.Process.Scheduler.{visit, visit_as, visit_killed, reap, wake}

-- The indices in a process are those of the tables, and the killed ones are not the shell.
pub record Fits (shell pipes : ℕ) (p : Proc) : Type 0 where
  pub not_shell : is_killed p.status ≡ true → p.pid ≢ shell
  pub parent : p.parent_idx < max_procs
  pub target : p.status ≡ waiting_on_pid → p.waiting_on < max_procs
  pub pipe : p.status ≡ waiting_on_pipe → p.waiting_on < pipes

pub record IsSound (k : Kernel) : Type 0 where
  pub size : length k.ptable ≡ max_procs
  pub all : (i : ℕ) (p : Proc) → get_elem? k.ptable i ≡ some p → Fits k.sh_pid (length k.pipes) p

-- What process `p` in slot `j` waits for has happened: its own child is killed, or there is input.
abbrev pub Awaited : Kernel → ℕ → Proc → ProcStatus → Type 0
Awaited k j p unused = ⊥
Awaited k j p embryo = Unit {0}
Awaited k j p runnable = Unit {0}
Awaited k j p waiting_on_pid =
    (t : Proc) × (get_elem? k.ptable p.waiting_on ≡ some t)
    × (is_killed t.status ≡ true)
    × (t.parent_idx ≡ j)
Awaited k j p waiting_on_stdin = k.tty.read_ptr ≢ k.tty.write_ptr
Awaited k j p waiting_on_pipe =
    (q : PipeData) × (get_elem? k.pipes p.waiting_on ≡ some q) × (q.write_ptr ≢ q.read_ptr)
Awaited k j p killed = ⊥

pub record IsReady (k : Kernel) (j : ℕ) : Type 0 where
  pub proc : Proc
  pub at : get_elem? k.ptable j ≡ some proc
  pub awaited : Awaited k j proc proc.status

-- The scheduler's own condition: process `p` may run. The killed process that a process waits for
-- need not be its own child.
abbrev pub Due : Kernel → Proc → ProcStatus → Type 0
Due k p unused = ⊥
Due k p embryo = Unit {0}
Due k p runnable = Unit {0}
Due k p waiting_on_pid =
    (t : Proc) × (get_elem? k.ptable p.waiting_on ≡ some t) × (is_killed t.status ≡ true)
Due k p waiting_on_stdin = k.tty.read_ptr ≢ k.tty.write_ptr
Due k p waiting_on_pipe =
    (q : PipeData) × (get_elem? k.pipes p.waiting_on ≡ some q) × (q.write_ptr ≢ q.read_ptr)
Due k p killed = ⊥

pub record IsDue (k : Kernel) (i : ℕ) : Type 0 where
  pub proc : Proc
  pub at : get_elem? k.ptable i ≡ some proc
  pub due : Due k proc proc.status

-- The three ways in which a round ends.
pub data Visited (k : Kernel) (i : ℕ) : Bool × Kernel → Type 0 where
  chose : {k' : Kernel} → IsDue k i → k'.current ≡ i → Visited k i (true, k')
  passed : ¬ IsReady k i → Visited k i (false, k)
  reaped :
      {p parent : Proc}
      → get_elem? k.ptable i ≡ some p
      → is_killed p.status ≡ true
      → get_elem? k.ptable p.parent_idx ≡ some parent
      → proc_alive parent.status ≡ false
      → Visited k i (false, put_proc k i (record p { status = unused }))

module _ (g : Statics) (k : Kernel) (i : ℕ) (p : Proc) (at : get_elem? k.ptable i ≡ some p)
    (fits : Fits k.sh_pid (length k.pipes) p) (size : length k.ptable ≡ max_procs) where
  -- How the round ends where the status is `status`.
  Ends : ProcStatus → Type 0
  Ends status = (r : Bool × Kernel) × (visit_as g k i p status ≡ ok r) × Visited k i r

  not-IsReady : {status : ProcStatus} → p.status ≡ status → ¬ Awaited k i p status → ¬ IsReady k i
  not-IsReady e unmet r = unmet (
      subst (λ s. Awaited k i p s) e
        (subst (λ (q : Proc). Awaited k i q q.status) (some_injective (sym r.at ∙ at)) r.awaited))

  is_due : {status : ProcStatus} → p.status ≡ status → Due k p status → IsDue k i
  is_due e d = record { proc = p; at = at; due = subst (λ s. Due k p s) (sym e) d }

  Ends-waiting_on_pid : p.status ≡ waiting_on_pid → Ends waiting_on_pid
  unfolding visit_as Ends
  Ends-waiting_on_pid e =
      let (t, there) = get_elem?_total k.ptable p.waiting_on (omega (arith, fits.target e, size)) in
      elim (Bool-cases (is_killed t.status)) [
        | inl dead ↦ (
          (true, wake k i (record p { exit_code = t.exit_code })),
          ground arith,
          chose (is_due e (t, there, dead)) refl,
        )
        | inr lives ↦ (
          (false, k),
          ground arith,
          passed (
              not-IsReady e λ (t', there', dead, own).
                different t t' (some_injective (sym there ∙ there')) lives dead),
        )
      ]
    where
      different :
          (t t' : Proc) → t ≡ t' → is_killed t.status ≡ false → is_killed t'.status ≡ true → ⊥
      different t t' same lives dead = cc (ap (λ (x : Proc). is_killed x.status) same)

  Ends-waiting_on_stdin : p.status ≡ waiting_on_stdin → Ends waiting_on_stdin
  unfolding visit_as Ends
  Ends-waiting_on_stdin e = elim (Bool-cases (k.tty.read_ptr == k.tty.write_ptr)) [
    | inl same ↦ ((false, k), ground arith, passed (not-IsReady e λ differ. differ (ground arith)))
    | inr differ ↦ ((true, wake k i p), ground arith, chose (is_due e (ground arith)) refl)
  ]

  Ends-waiting_on_pipe : p.status ≡ waiting_on_pipe → Ends waiting_on_pipe
  unfolding visit_as Ends
  Ends-waiting_on_pipe e =
      let (q, there) = get_elem?_total k.pipes p.waiting_on (fits.pipe e) in
      elim (Bool-cases (q.write_ptr == q.read_ptr)) [
        | inl same ↦ (
          (false, k),
          ground arith,
          passed (
              not-IsReady e λ (q', there', differ).
                moved q q' (some_injective (sym there ∙ there')) same differ),
        )
        | inr differ ↦
            ((true, wake k i p), ground arith, chose (is_due e (q, there, ground arith)) refl)
      ]
    where
      moved :
          (q q' : PipeData)
          → q ≡ q'
          → (q.write_ptr == q.read_ptr) ≡ true
          → q'.write_ptr ≢ q'.read_ptr
          → ⊥
      moved q q' same equal differ =
          let e : q.write_ptr ≡ q.read_ptr = ground arith in
          differ (subst (λ (x : PipeData). x.write_ptr ≡ x.read_ptr) same e)

  Ends-killed : p.status ≡ killed → Ends killed
  unfolding visit_as visit_killed reap Ends
  Ends-killed e =
      let dead : is_killed p.status ≡ true = rw e in
      let other : (p.pid == k.sh_pid) ≡ false = ground (arith, fits.not_shell dead) in
      let (parent, there) =
        get_elem?_total k.ptable p.parent_idx (omega (arith, fits.parent, size)) in
      elim (Bool-cases (proc_alive parent.status)) [
        | inl alive ↦ ((false, k), ground arith, passed (not-IsReady e λ never. never))
        | inr gone ↦ (
          (false, put_proc k i (record p { status = unused })),
          ground arith,
          reaped at dead there gone,
        )
      ]

  Ends-any : (status : ProcStatus) → p.status ≡ status → Ends status
  unfolding visit_as Ends
  Ends-any unused e = ((false, k), refl, passed (not-IsReady e λ never. never))
  Ends-any embryo e = ((true, record k { current = i }), refl, chose (is_due e tt) refl)
  Ends-any runnable e = ((true, record k { current = i }), refl, chose (is_due e tt) refl)
  Ends-any waiting_on_pid e = Ends-waiting_on_pid e
  Ends-any waiting_on_stdin e = Ends-waiting_on_stdin e
  Ends-any waiting_on_pipe e = Ends-waiting_on_pipe e
  Ends-any killed e = Ends-killed e

-- Every round on a sound table ends, in one of the three ways.
pub visit-Visited :
    (g : Statics) (k : Kernel) (i : ℕ)
    → IsSound k
    → i < max_procs
    → (r : Bool × Kernel) × (visit g k i ≡ ok r) × Visited k i r
unfolding visit Ends
visit-Visited g k i sound lt =
    let (p, at) = get_elem?_total k.ptable i (omega (arith, sound.size)) in
    let (r, run, how) = Ends-any g k i p at (sound.all i p at) sound.size p.status refl in
    (r, ground arith, how)
