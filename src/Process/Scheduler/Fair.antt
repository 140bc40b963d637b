-- ===== src/Process/Scheduler/Fair.antt =====
-- The order in which scheduler of kernel/src/proc.c comes to the slots of the table.
use foxtail.Common.{
  ℕ, zero, suc, ◌+◌, ◌-◌, ◌%◌, ◌≤◌, ◌<◌, ◌≡◌, ◌≢◌, refl, sym, ap, ◌∙◌, subst, Bool, true, false,
  arith, ok, ok_injective, get_elem?-lt,
}
use foxtail.Kernel.{Kernel, unused, max_procs}
use foxtail.Process.Table.{put_proc}
use foxtail.Process.Exec.{Statics}
use foxtail.Process.Scheduler.{visit, scan, scheduler}
use foxtail.Process.Scheduler.Ready.{
  IsSound, IsReady, IsDue, Visited, chose, passed, reaped, visit-Visited,
}
use foxtail.Process.Scheduler.Reaped.{reaped-IsSound, reaped-IsReady, reaped-IsDue, killed-IsReady}

-- How many slots the scan passes from behind slot `i` before slot `j`.
abbrev pub ahead : ℕ → ℕ → ℕ
ahead i j = (j + 255 - i) % 256

-- The scan returns, no later than at `j`, with a process that may run.
record Stops (fuel : ℕ) (g : Statics) (k : Kernel) (i j : ℕ) : Type 0 where
  result : Kernel
  run : scan fuel g k i ≡ ok result
  bound : result.current < max_procs
  early : ahead i result.current ≤ ahead i j
  due : IsDue k result.current

-- One round, and the rest of the scan where it goes on.
module _ (fuel : ℕ) (g : Statics) (k : Kernel) (i j : ℕ) (lt : i < max_procs) (lt' : j < max_procs)
    (sound : IsSound k) (ready : IsReady k j) (enough : ahead i j < suc fuel) where
  abbrev next : ℕ
  next = (i + 1) % max_procs

  go_on :
      (k1 : Kernel)
      → visit g k next ≡ ok (false, k1)
      → next ≢ j
      → ((x : ℕ) → IsDue k1 x → IsDue k x)
      → Stops fuel g k1 next j
      → Stops (suc fuel) g k i j
  unfolding scan
  go_on k1 run ne back rest = record {
    result = rest.result;
    run = rw run rest.run;
    bound = rest.bound;
    early = omega (arith, rest.bound, rest.early);
    due = back rest.result.current rest.due;
  }

  round :
      (r : Bool × Kernel)
      → visit g k next ≡ ok r
      → Visited k next r
      → ((k1 : Kernel) → IsSound k1 → IsReady k1 j → ahead next j < fuel → Stops fuel g k1 next j)
      → Stops (suc fuel) g k i j
  unfolding scan
  round (true, k') run (chose due here) rest = record {
    result = k';
    run = rw run refl;
    bound = omega (arith, here);
    early = omega (arith, here);
    due = subst (IsDue k) (sym here) due;
  }
  round (false, k1) run (passed unready) rest =
      let ne : next ≢ j = λ e. unready (subst (IsReady k) (sym e) ready) in
      go_on k run ne (λ x d. d) (rest k sound ready (omega arith))
  round (false, k1) run (reaped {p} {parent} at dead there gone) rest =
      let ne : next ≢ j = λ e. killed-IsReady k next p at dead (subst (IsReady k) (sym e) ready) in
      let k1 = put_proc k next (record p { status = unused }) in
      go_on k1 run ne (reaped-IsDue k next p at) (
        rest k1 (reaped-IsSound k next p sound at)
          (reaped-IsReady k next j p parent at dead there gone ready) (omega arith))

scan-Stops :
    (fuel : ℕ) (g : Statics) (k : Kernel) (i j : ℕ)
    → IsSound k
    → i < max_procs
    → j < max_procs
    → IsReady k j
    → ahead i j < fuel
    → Stops fuel g k i j
scan-Stops zero g k i j sound lt lt' ready enough = absurd (omega arith)
scan-Stops (suc fuel) g k i j sound lt lt' ready enough =
    let (r, run, how) = visit-Visited g k ((i + 1) % max_procs) sound (omega arith) in
    round fuel g k i j lt lt' sound ready enough r run how λ k1 sound1 ready1 less.
      scan-Stops fuel g k1 ((i + 1) % max_procs) j sound1 (omega arith) lt' ready1 less

-- Where the indices in the table are in range, no killed process is the shell, and process `j` is
-- ready (it is new or runnable, its own child is killed, or there is input for it), the scheduler
-- returns within one round of the table, and the slot that it returns with is not behind `j` in the
-- order of the round. The process in that slot may run: it is ready, or it waits for a killed process
-- that is not its own child. So of all ready processes the scheduler passes none.
pub scheduler_first :
    (g : Statics) (k : Kernel) (j : ℕ)
    → IsSound k
    → k.current < max_procs
    → IsReady k j
    → (k' : Kernel) × (scheduler max_procs g k ≡ ok k')
      × (k'.current < max_procs)
      × (ahead k.current k'.current ≤ ahead k.current j)
      × IsDue k k'.current
unfolding scheduler
scheduler_first g k j sound lt ready =
    let lt' : j < max_procs = omega (arith, get_elem?-lt k.ptable j ready.at, sound.size) in
    let s = scan-Stops max_procs g k k.current j sound lt lt' ready (omega arith) in
    (s.result, s.run, s.bound, s.early, s.due)

-- From `k` the scheduler is called `n` times and leaves `k'`. Between two calls the processes do what
-- they want, but each call finds a sound table and `j` ready, and chooses another slot than `j`.
pub data Passes (g : Statics) (j : ℕ) (k : Kernel) : ℕ → Kernel → Type 0 where
  start : Passes g j k 0 k
  turn :
      {n : ℕ} {k1 k3 : Kernel} (k2 : Kernel)
      → Passes g j k n k1
      → k2.current ≡ k1.current
      → IsSound k2
      → IsReady k2 j
      → scheduler max_procs g k2 ≡ ok k3
      → k3.current ≢ j
      → Passes g j k (suc n) k3

Passes-bound :
    (g : Statics) (j : ℕ) (k : Kernel) (n : ℕ) (k' : Kernel)
    → k.current < max_procs
    → Passes g j k n k'
    → (k'.current < max_procs) × (n + ahead k'.current j ≤ 255)
Passes-bound g j k _ _ lt start = (lt, omega arith)
Passes-bound g j k _ _ lt (turn {n} {k1} {k3} k2 before same sound ready run ne) =
    let (lt1, bound) = Passes-bound g j k n k1 lt before in
    let lt2 : k2.current < max_procs = omega (arith, same, lt1) in
    let lt' : j < max_procs = omega (arith, get_elem?-lt k2.ptable j ready.at, sound.size) in
    let (k', run', lt3, early, due) = scheduler_first g k2 j sound lt2 ready in
    let e : k'.current ≡ k3.current =
      ap (λ (x : Kernel). x.current) (ok_injective (sym run' ∙ run)) in
    omega (arith, lt3, e, early, bound, same, lt1, lt')

-- A process that is ready at each call of the scheduler is chosen before 256 calls have chosen
-- others, whatever the processes do in between, as long as the table is sound at each call.
pub scheduler_fair :
    (g : Statics) (j : ℕ) (k : Kernel) (n : ℕ) (k' : Kernel)
    → k.current < max_procs
    → Passes g j k n k'
    → n < max_procs
scheduler_fair g j k n k' lt passes =
    let (bound, sum) = Passes-bound g j k n k' lt passes in omega (arith, sum)
