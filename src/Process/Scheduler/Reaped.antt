-- ===== src/Process/Scheduler/Reaped.antt =====
-- A slot that scheduler of kernel/src/proc.c gives up, and what that leaves of the others.
use foxtail.Common.{
  ℕ, ◌≡◌, ◌≢◌, refl, sym, ap, ◌∙◌, subst, true, false, some, arith, length, get_elem?, get_elem?-lt,
  get_elem?-set_ne, get_elem?-set_self, length-set, set_all, ◌==◌, Bool-cases, inl, inr,
  some_injective,
}
use foxtail.Kernel.{
  Kernel, Proc, ProcStatus, unused, embryo, runnable, waiting_on_pid, waiting_on_stdin,
  waiting_on_pipe, killed,
}
use foxtail.Process.Table.{put_proc, proc_alive, is_killed}
use foxtail.Process.Scheduler.Ready.{Fits, IsSound, Awaited, IsReady, Due, IsDue}

-- A slot that is given up leaves the table sound.
pub reaped-IsSound :
    (k : Kernel) (i : ℕ) (p : Proc)
    → IsSound k
    → get_elem? k.ptable i ≡ some p
    → IsSound (put_proc k i (record p { status = unused }))
reaped-IsSound k i p sound at = record {
  size = length-set k.ptable i (record p { status = unused }) ∙ sound.size;
  all =
      set_all (Fits k.sh_pid (length k.pipes)) k.ptable i (record p { status = unused })
        (record {
          not_shell = λ e. cc;
          parent = (sound.all i p at).parent;
          target = λ e. cc;
          pipe = λ e. cc;
        })
        sound.all;
}

killed-Awaited :
    (k : Kernel) (j : ℕ) (q : Proc) (status : ProcStatus)
    → is_killed status ≡ true
    → ¬ Awaited k j q status
killed-Awaited k j q killed dead a = a
killed-Awaited k j q _ dead a = cc

-- A killed process is not ready.
pub killed-IsReady :
    (k : Kernel) (i : ℕ) (p : Proc)
    → get_elem? k.ptable i ≡ some p
    → is_killed p.status ≡ true
    → ¬ IsReady k i
killed-IsReady k i p at dead r =
    killed-Awaited k i r.proc r.proc.status
      (ap (λ (x : Proc). is_killed x.status) (some_injective (sym r.at ∙ at)) ∙ dead) r.awaited

module _ (k : Kernel) (i j : ℕ) (p parent : Proc) (at : get_elem? k.ptable i ≡ some p)
    (dead : is_killed p.status ≡ true) (there : get_elem? k.ptable p.parent_idx ≡ some parent)
    (gone : proc_alive parent.status ≡ false) where
  k' : Kernel
  k' = put_proc k i (record p { status = unused })

  -- What a process waits for is not undone: its own killed child keeps its slot.
  Awaited-kept :
      (q : Proc) (status : ProcStatus)
      → get_elem? k.ptable j ≡ some q
      → q.status ≡ status
      → Awaited k j q status
      → Awaited k' j q status
  unfolding k' proc_alive
  Awaited-kept q waiting_on_pid here e (t, target, ended, own) =
      elim (Bool-cases (q.waiting_on == i)) [
        | inl same ↦ absurd (child (ground arith))
        | inr other ↦
            let ne : i ≢ q.waiting_on = ground arith in
            (t, get_elem?-set_ne k.ptable (record p { status = unused }) ne ∙ target, ended, own)
      ]
    where
      alive : (x : Proc) → q ≡ x → proc_alive x.status ≡ true
      alive x same = subst (λ (y : Proc). proc_alive y.status ≡ true) same (rw e refl)

      child : q.waiting_on ≡ i → ⊥
      child same =
          let self : p ≡ t =
            some_injective (sym at ∙ subst (λ n. get_elem? k.ptable n ≡ some t) same target) in
          let owner : p.parent_idx ≡ j = ap (λ (x : Proc). x.parent_idx) self ∙ own in
          let holder : q ≡ parent =
            some_injective
              (sym here ∙ subst (λ n. get_elem? k.ptable n ≡ some parent) owner there) in
          cc (alive parent holder)
  Awaited-kept q unused here e a = a
  Awaited-kept q embryo here e a = a
  Awaited-kept q runnable here e a = a
  Awaited-kept q waiting_on_stdin here e a = a
  Awaited-kept q waiting_on_pipe here e a = a
  Awaited-kept q killed here e a = a

  -- A process that is ready stays so when another slot is given up.
  pub reaped-IsReady : IsReady k j → IsReady (put_proc k i (record p { status = unused })) j
  unfolding k'
  reaped-IsReady r =
      let ne : i ≢ j = λ e. killed-IsReady k i p at dead (subst (IsReady k) (sym e) r) in
      record {
        proc = r.proc;
        at = get_elem?-set_ne k.ptable (record p { status = unused }) ne ∙ r.at;
        awaited = Awaited-kept r.proc r.proc.status r.at refl r.awaited;
      }

module _ (k : Kernel) (i : ℕ) (p : Proc) (at : get_elem? k.ptable i ≡ some p) where
  -- What is in another slot was there before.
  kept_at :
      (j : ℕ) (q : Proc)
      → get_elem? (put_proc k i (record p { status = unused })).ptable j ≡ some q
      → q.status ≢ unused
      → get_elem? k.ptable j ≡ some q
  kept_at j q here used = elim (Bool-cases (j == i)) [
    | inl same ↦ absurd (used (free q (at_i (ground arith))))
    | inr other ↦
        let ne : i ≢ j = ground arith in
        sym (get_elem?-set_ne k.ptable (record p { status = unused }) ne) ∙ here
  ]
    where
      at_i : j ≡ i → get_elem? (put_proc k i (record p { status = unused })).ptable i ≡ some q
      at_i e =
          subst (λ n. get_elem? (put_proc k i (record p { status = unused })).ptable n ≡ some q) e
            here

      free :
          (x : Proc)
          → get_elem? (put_proc k i (record p { status = unused })).ptable i ≡ some x
          → x.status ≡ unused
      free x there =
          ap (λ (y : Proc). y.status)
            (some_injective (
              sym there
              ∙ get_elem?-set_self k.ptable i (record p { status = unused })
                  (get_elem?-lt k.ptable i at)))

  Due-before :
      (q : Proc) (status : ProcStatus)
      → Due (put_proc k i (record p { status = unused })) q status
      → Due k q status
  Due-before q waiting_on_pid (t, there, dead) =
      (t, kept_at q.waiting_on t there (killed-used t.status dead), dead)
    where
      killed-used : (s : ProcStatus) → is_killed s ≡ true → s ≢ unused
      killed-used s dead e = cc (ap is_killed e)
  Due-before q unused d = d
  Due-before q embryo d = d
  Due-before q runnable d = d
  Due-before q waiting_on_stdin d = d
  Due-before q waiting_on_pipe d = d
  Due-before q killed d = d

  -- A process that may run after a slot is given up could run before.
  pub reaped-IsDue : (j : ℕ) → IsDue (put_proc k i (record p { status = unused })) j → IsDue k j
  reaped-IsDue j r = record {
    proc = r.proc;
    at = kept_at j r.proc r.at (used r.proc.status r.due);
    due = Due-before r.proc r.proc.status r.due;
  }
    where
      used :
          (s : ProcStatus) → Due (put_proc k i (record p { status = unused })) r.proc s → s ≢ unused
      used s d e = subst (λ x. Due (put_proc k i (record p { status = unused })) r.proc x) e d
