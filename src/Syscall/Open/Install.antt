-- ===== src/Syscall/Open/Install.antt =====
-- sys_open of kernel/src/syscall.c and the reference counts.
use foxtail.Common.{
  ℕ, ◌%◌, ◌≡◌, sym, ap, ◌∙◌, subst, Bool, true, Option, none, some, arith, get_elem?, set,
  Bool-cases, Option-cases, ◌==◌, ◌||◌, if◌then◌else◌, inl, inr, ok, ◌>>=◌, >>=-eq-ok, ok_injective,
  some_injective,
}
use foxtail.Fs.Defs.{Fs, Inode, inode_at, FileType, file, directory, symlink, unallocated}
use foxtail.Fs.Links.{follow_symlink}
use foxtail.Fs.Inodes.{acquire_inode}
use foxtail.Fs.Inodes.References.{acquire_inode-Counts}
use foxtail.Kernel.{
  Kernel, Proc, Fd, FdStatus, fd_unmapped, fd_regular_file, fd_regular_directory, file_ptr, fail,
  same_status,
}
use foxtail.Syscall.Open.{
  open_status, first_unmapped, install, install_open, open_at, kind_status, link_status, status_for,
}
use foxtail.Syscall.Open.Descriptors.{
  holds, count_refs, count_refs-set_fd, first_unmapped_sound, unmapped_holds,
}

-- Every inode counts the descriptors that hold it, modulo the 16 bits of its counter.
abbrev pub IsCounted : Kernel → Type 0
IsCounted k =
    (i : ℕ) (inode : Inode)
    → get_elem? k.fs.inodes i ≡ some inode
    → inode.num_refs ≡ count_refs i k.ptable % 65536

install-IsCounted :
    (k k' : Kernel) (p : Proc) (n target mode r : ℕ) (status : FdStatus) (d : Fd)
    → IsCounted k
    → get_elem? k.ptable k.current ≡ some p
    → get_elem? p.fds n ≡ some d
    → same_status d.status fd_unmapped ≡ true
    → (same_status status fd_regular_file || same_status status fd_regular_directory) ≡ true
    → install k p n target mode status ≡ ok (r, k')
    → IsCounted k'
unfolding install
install-IsCounted k k' p n target mode r status d counted cur at un kind run i inode e =
    let (fs, acquired, last) = >>=-eq-ok (acquire_inode k.fs target) _ run in
    let new : Fd = record { status = status; mode = mode; target = file_ptr target; ptr = 0 } in
    let result = ok_injective last in
    let table : set k.ptable k.current (record p { fds = set p.fds n new }) ≡ k'.ptable =
      ap (λ (x : ℕ × Kernel). x.1.ptable) result in
    let inodes : fs.inodes ≡ k'.fs.inodes = ap (λ (x : ℕ × Kernel). x.1.fs.inodes) result in
    let c =
      acquire_inode-Counts k.fs fs target acquired i inode
        (subst (λ l. get_elem? l i ≡ some inode) (sym inodes) e) in
    let one : holds i new ≡ (if i == target then 1 else 0) = ground arith in
    let none_held = unmapped_holds i d un in
    let sum = count_refs-set_fd i k.current n k.ptable p d new cur at in
    subst (λ l. inode.num_refs ≡ count_refs i l % 65536) table
      (elim (Bool-cases (i == target)) [
        | inl same ↦ ground (arith, c.refs, counted i c.old c.at, one, none_held, sum)
        | inr other ↦ ground (arith, c.refs, counted i c.old c.at, one, none_held, sum)
      ])

-- The status that a file, a directory or a link gives is that of a file or a directory.
abbrev pub is_file_status : FdStatus → Bool
is_file_status status =
    same_status status fd_regular_file || same_status status fd_regular_directory

kind_status-kind :
    (kind : FileType) (status : FdStatus)
    → kind_status kind ≡ ok status
    → is_file_status status ≡ true
unfolding kind_status
kind_status-kind file status h = ap is_file_status (sym (ok_injective h))
kind_status-kind directory status h = ap is_file_status (sym (ok_injective h))
kind_status-kind _ status h = cc

link_status-kind :
    (fs : Fs) (followed : Option ℕ) (status : FdStatus)
    → link_status fs followed ≡ ok (some status)
    → is_file_status status ≡ true
unfolding link_status
link_status-kind fs none status h = cc
link_status-kind fs (some idx) status h =
    let (t, at, rest) = >>=-eq-ok (inode_at fs idx) _ h in
    let (st, kind, last) = >>=-eq-ok (kind_status t.file_type) _ rest in
    kind_status-kind t.file_type status (kind ∙ ap ok (some_injective (ok_injective last)))

status_for-kind :
    (fs : Fs) (target : ℕ) (kind : FileType) (status : FdStatus)
    → status_for fs target kind ≡ ok (some status)
    → is_file_status status ≡ true
unfolding status_for
status_for-kind fs target file status h = ap is_file_status (sym (some_injective (ok_injective h)))
status_for-kind fs target directory status h =
    ap is_file_status (sym (some_injective (ok_injective h)))
status_for-kind fs target symlink status h =
    let (followed, run, rest) = >>=-eq-ok (follow_symlink fs target) _ h in
    link_status-kind fs followed status rest
status_for-kind fs target unallocated status h = cc

open_status-kind :
    (fs : Fs) (target : ℕ) (status : FdStatus)
    → open_status fs target ≡ ok (some status)
    → is_file_status status ≡ true
unfolding open_status
open_status-kind fs target status h =
    let (inode, at, rest) = >>=-eq-ok (inode_at fs target) _ h in
    status_for-kind fs target inode.file_type status rest

pub unchanged : (k k' : Kernel) (r : ℕ) → fail k ≡ ok (r, k') → k ≡ k'
unchanged k k' r e = ap (λ (x : ℕ × Kernel). x.1) (ok_injective e)

-- If every inode's counter is the number of descriptors of all processes that hold it, modulo 2^16,
-- this is so after sys_open has found an inode and returned: with a new descriptor, through a link
-- or not, or with a failure for want of a descriptor or of the link's target.
pub open_at-IsCounted :
    (k k' : Kernel) (p : Proc) (target mode r : ℕ)
    → IsCounted k
    → get_elem? k.ptable k.current ≡ some p
    → open_at k p target mode ≡ ok (r, k')
    → IsCounted k'
unfolding open_at
open_at-IsCounted k k' p target mode r counted cur run =
    elim (Option-cases (first_unmapped p.fds 0)) [
      | inl full ↦ subst IsCounted (unchanged k k' r (ground arith)) counted
      | inr (n, found) ↦
          let (d, m, sum, at, is, before) = first_unmapped_sound p.fds 0 n found in
          let body : (open_status k.fs target >>= λ status. install_open k p n target mode status)
              ≡ ok (r, k') =
            ground arith in
          let (status, kind, rest) = >>=-eq-ok (open_status k.fs target) _ body in
          go n d status (subst (λ j. get_elem? p.fds j ≡ some d) (omega arith) at) is kind rest
    ]
  where
    go :
        (n : ℕ) (d : Fd) (status : Option FdStatus)
        → get_elem? p.fds n ≡ some d
        → same_status d.status fd_unmapped ≡ true
        → open_status k.fs target ≡ ok status
        → install_open k p n target mode status ≡ ok (r, k')
        → IsCounted k'
    go n d none at is kind last = subst IsCounted (unchanged k k' r last) counted
    go n d (some status) at is kind last =
        install-IsCounted k k' p n target mode r status d counted cur at is
          (open_status-kind k.fs target status kind) last
