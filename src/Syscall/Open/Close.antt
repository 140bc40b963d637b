-- ===== src/Syscall/Open/Close.antt =====
-- sys_close of kernel/src/syscall.c and the reference counts.
use foxtail.Common.{
  ℕ, ◌+◌, ◌%◌, ◌≤◌, ◌≡◌, sym, ap, subst, true, some, arith, get_elem?, set, Bool-cases, ◌==◌, leb,
  if◌then◌else◌, inl, inr, ok, ◌>>=◌, >>=-eq-ok, ok_injective,
}
use foxtail.Fs.Defs.{Fs, Inode}
use foxtail.Fs.Inodes.{release_inode}
use foxtail.Fs.Inodes.References.{release_inode-Counts}
use foxtail.Kernel.{
  Kernel, Regs, Reply, Proc, Fd, fd_unmapped, fd_pipe, get_current_proc, fd_at, set_fd, file_of,
  same_status, pipe_at, pipe_of, max_fds,
}
use foxtail.Syscall.Open.{release_file, sys_close, close_at, release_fd, drop_pipe}
use foxtail.Syscall.Open.Descriptors.{holds, count_refs, count_refs-set_fd}
use foxtail.Syscall.Open.Install.{IsCounted, is_file_status, unchanged}

-- What release_fd does to the reference counts: the inode that the descriptor holds has one less.
record Released (k : Kernel) (d : Fd) (k1 : Kernel) : Type 0 where
  ptable : k1.ptable ≡ k.ptable
  current : k1.current ≡ k.current
  refs :
      (i : ℕ) (inode' : Inode)
      → get_elem? k1.fs.inodes i ≡ some inode'
      → (old : Inode) × (get_elem? k.fs.inodes i ≡ some old)
        × (inode'.num_refs
            ≡ (if holds i d == 1 then (old.num_refs + 65535) % 65536 else old.num_refs))

drop_pipe-fs :
    (k k1 : Kernel) (i : ℕ)
    → drop_pipe k i ≡ ok k1
    → (k1.ptable ≡ k.ptable) × (k1.current ≡ k.current) × (k1.fs ≡ k.fs)
unfolding drop_pipe
drop_pipe-fs k k1 i run =
    let (q, at, last) = >>=-eq-ok (pipe_at k i) _ run in
    let e = ok_injective last in
    (
      sym (ap (λ (x : Kernel). x.ptable) e),
      sym (ap (λ (x : Kernel). x.current) e),
      sym (ap (λ (x : Kernel). x.fs) e),
    )

-- What release_file does to each inode of the table.
Dropped : Fs → Fd → Fs → Type 0
Dropped fs d fs1 =
    (i : ℕ) (inode' : Inode)
    → get_elem? fs1.inodes i ≡ some inode'
    → (old : Inode) × (get_elem? fs.inodes i ≡ some old)
      × (inode'.num_refs
          ≡ (if holds i d == 1 then (old.num_refs + 65535) % 65536 else old.num_refs))

release_file-Dropped : (fs fs1 : Fs) (d : Fd) → release_file fs d ≡ ok fs1 → Dropped fs d fs1
unfolding release_file Dropped
release_file-Dropped fs fs1 d run i inode' e = elim (Bool-cases (is_file_status d.status)) [
  | inl is ↦
      let body : (file_of d.target >>= λ t. release_inode fs t) ≡ ok fs1 = ground arith in
      let (t, target, rest) = >>=-eq-ok (file_of d.target) (λ t. release_inode fs t) body in
      let c = release_inode-Counts fs fs1 t rest i inode' e in
      let held = held_by d t target is in (c.old, c.at, ground (arith, c.refs, held))
  | inr other ↦
      let same : fs ≡ fs1 = ground arith in
      let none_held : holds i d ≡ 0 = rw other in
      (inode', subst (λ (x : Fs). get_elem? x.inodes i ≡ some inode') (sym same) e, rw none_held)
]
  where
    held_by :
        (d : Fd) (t : ℕ)
        → file_of d.target ≡ ok t
        → is_file_status d.status ≡ true
        → holds i d ≡ (if i == t then 1 else 0)
    held_by d t target is = ground arith

release_fd-Released : (k k1 : Kernel) (d : Fd) → release_fd k d ≡ ok k1 → Released k d k1
unfolding release_fd Dropped
release_fd-Released k k1 d run = elim (Bool-cases (same_status d.status fd_pipe)) [
  | inl is ↦
      let body : (pipe_of d.target >>= λ i. drop_pipe k i) ≡ ok k1 = ground arith in
      let (i, target, rest) = >>=-eq-ok (pipe_of d.target) (λ i. drop_pipe k i) body in
      let (table, current, fs) = drop_pipe-fs k k1 i rest in
      let none_held : (i : ℕ) → holds i d ≡ 0 = λ i. pipe_holds i d is in
      record {
        ptable = table;
        current = current;
        refs = λ i inode' e.
            (inode', subst (λ (x : Fs). get_elem? x.inodes i ≡ some inode') fs e, rw (none_held i));
      }
  | inr other ↦
      let body : (release_file k.fs d >>= λ fs. ok (record k { fs = fs })) ≡ ok k1 = ground arith in
      let (fs, released, last) =
        >>=-eq-ok (release_file k.fs d) (λ fs. ok (record k { fs = fs })) body in
      let e = ok_injective last in
      record {
        ptable = sym (ap (λ (x : Kernel). x.ptable) e);
        current = sym (ap (λ (x : Kernel). x.current) e);
        refs = λ i inode' at.
            release_file-Dropped k.fs fs d released i inode'
              (subst (λ (x : Kernel). get_elem? x.fs.inodes i ≡ some inode') (sym e) at);
      }
]
  where
    pipe_holds : (i : ℕ) (d : Fd) → same_status d.status fd_pipe ≡ true → holds i d ≡ 0
    pipe_holds i d is = ground arith

-- What is left of a count, for a descriptor that has held the inode or not.
one_less :
    (h total rest refs refs' : ℕ)
    → h ≤ 1
    → rest + h ≡ total
    → refs ≡ total % 65536
    → refs' ≡ (if h == 1 then (refs + 65535) % 65536 else refs)
    → refs' ≡ rest % 65536
one_less h total rest refs refs' bound sum old new = ground arith

holds_bound : (i : ℕ) (d : Fd) → holds i d ≤ 1
holds_bound i d = ground arith

close_at-IsCounted :
    (k k' : Kernel) (p : Proc) (d : Fd) (n r : ℕ)
    → IsCounted k
    → get_elem? k.ptable k.current ≡ some p
    → get_elem? p.fds n ≡ some d
    → close_at n k p d ≡ ok (r, k')
    → IsCounted k'
unfolding close_at
close_at-IsCounted k k' p d n r counted cur at run =
    elim (Bool-cases (same_status d.status fd_unmapped)) [
      | inl un ↦ subst IsCounted (unchanged k k' r (ground arith)) counted
      | inr mapped ↦
          let new : Fd = record d { status = fd_unmapped } in
          let finish : Kernel → Reply = λ k1. ok (0, set_fd k1 p n new) in
          let body : (release_fd k d >>= finish) ≡ ok (r, k') = ground arith in
          let (k1, freed, last) = >>=-eq-ok (release_fd k d) finish body in
          subst IsCounted (ap (λ (x : ℕ × Kernel). x.1) (ok_injective last))
            (after k1 (release_fd-Released k k1 d freed))
    ]
  where
    new : Fd
    new = record d { status = fd_unmapped }

    after : (k1 : Kernel) → Released k d k1 → IsCounted (set_fd k1 p n new)
    after k1 released i inode' e =
        let (old, there, refs) = released.refs i inode' e in
        let sum = count_refs-set_fd i k.current n k.ptable p d new cur at in
        rw (released.ptable, released.current)
          (one_less (holds i d) (count_refs i k.ptable)
            (count_refs i (set k.ptable k.current (record p { fds = set p.fds n new })))
            old.num_refs inode'.num_refs (holds_bound i d) (omega (arith, sum))
            (counted i old there) refs)

-- If every inode's counter is the number of descriptors of all processes that hold it, modulo 2^16,
-- this is so after every sys_close that returns, on each of its branches: a file, a pipe, another
-- descriptor, or a failure.
pub sys_close-IsCounted :
    (s : Regs) (k k' : Kernel) (r : ℕ) → IsCounted k → sys_close s k ≡ ok (r, k') → IsCounted k'
unfolding sys_close
sys_close-IsCounted s k k' r counted run = elim (Bool-cases (leb max_fds s.ebx)) [
  | inl out ↦ subst IsCounted (unchanged k k' r (ground arith)) counted
  | inr inside ↦
      let body : (get_current_proc k >>= λ p. fd_at p s.ebx >>= λ d. close_at s.ebx k p d)
          ≡ ok (r, k') =
        ground arith in
      let (p, cur, rest) = >>=-eq-ok (get_current_proc k) _ body in
      let (d, at, last) = >>=-eq-ok (fd_at p s.ebx) _ rest in
      close_at-IsCounted k k' p d s.ebx r counted (found k p cur) (found_fd p s.ebx d at) last
]
  where
    found :
        (k : Kernel) (p : Proc) → get_current_proc k ≡ ok p → get_elem? k.ptable k.current ≡ some p
    found k p e = ground arith

    found_fd : (p : Proc) (i : ℕ) (d : Fd) → fd_at p i ≡ ok d → get_elem? p.fds i ≡ some d
    found_fd p i d e = ground arith
