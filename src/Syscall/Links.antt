-- ===== src/Syscall/Links.antt =====
-- sys_link and sys_harden of kernel/src/syscall.c.
use foxtail.Common.{
  ℕ, Option, none, some, List, Outcome, ok, ◌>>=◌, leb, not, ◌||◌, ◌&&◌, if◌then◌else◌,
}
use foxtail.Fs.Defs.{Fs, file, directory, symlink, same_type, inode_at, put_inode, ndirect}
use foxtail.Fs.Inodes.{alloc_inode}
use foxtail.Fs.Paths.{get_inode_by_path}
use foxtail.Kernel.{
  Kernel, Regs, Reply, fail, get_current_proc, cwd_of, is_valid_user_addr, user_string, minus_one,
}
use foxtail.Syscall.Tree.{bad_name, add_entry, new_inode}

-- A new link inode: its `target` word is the target's index from the start, since it is written
-- before anything reads it.
new_link : Fs → ℕ → ℕ → List ℕ → Outcome (ℕ × Fs)
new_link fs target dir name = elim (alloc_inode fs) [
  | none ↦ ok (minus_one, fs)
  | some idx ↦ inode_at fs idx >>= λ old.
      add_entry (put_inode fs idx (new_inode old name dir symlink old.word0)) dir idx >>= λ fs'.
      inode_at fs' idx >>= λ link. ok (0, put_inode fs' idx (record link { word0 = target }))
]

-- An inode of that name is pointed elsewhere, if it is a link.
relink : Fs → ℕ → ℕ → List ℕ → Option ℕ → Outcome (ℕ × Fs)
unfolding new_link
relink fs target dir name none = new_link fs target dir name
relink fs target dir name (some idx) = inode_at fs idx >>= λ link.
    if not (same_type link.file_type symlink)
    then ok (minus_one, fs)
    else ok (0, put_inode fs idx (record link { word0 = target }))

-- sys_link from the look-ups of the target and the directory on.
unfoldable pub link_in : Fs → ℕ → ℕ → List ℕ → Outcome (ℕ × Fs)
unfolding relink
link_in fs target dir new_path = inode_at fs dir >>= λ d.
    if not (same_type d.file_type directory)
    then ok (minus_one, fs)
    else if leb ndirect d.word0
    then ok (minus_one, fs)
    else if bad_name new_path
    then ok (minus_one, fs)
    else get_inode_by_path fs dir new_path >>= λ found. relink fs target dir new_path found

pub sys_link : Regs → Kernel → Reply
unfolding link_in
sys_link s k =
    if not (is_valid_user_addr s.ebx)
      || not (is_valid_user_addr s.ecx)
      || not (is_valid_user_addr s.edx)
    then fail k
    else get_current_proc k >>= λ p. cwd_of p >>= λ cwd.
        get_inode_by_path k.fs cwd (user_string k.user s.ebx) >>= λ found. elim found [
          | none ↦ fail k
          | some target ↦ get_inode_by_path k.fs cwd (user_string k.user s.ecx) >>= λ where_found.
              elim where_found [
                | none ↦ fail k
                | some dir ↦ link_in k.fs target dir (user_string k.user s.edx) >>= λ r.
                    ok (r.0, record k { fs = r.1 })
              ]
        ]

-- The symlink takes over the target's inode except for its name, and the target becomes a link to it.
unfoldable pub harden_at : Fs → ℕ → Outcome (ℕ × Fs)
harden_at fs idx = inode_at fs idx >>= λ link.
    if not (same_type link.file_type symlink)
    then ok (minus_one, fs)
    else inode_at fs link.word0 >>= λ target.
        if not (same_type target.file_type file) && not (same_type target.file_type directory)
        then ok (minus_one, fs)
        else (let fs' = put_inode fs idx (record target { name = link.name }) in
            ok (0, put_inode fs' link.word0 (record target { file_type = symlink; word0 = idx })))

pub sys_harden : Regs → Kernel → Reply
unfolding harden_at
sys_harden s k =
    if not (is_valid_user_addr s.ebx)
    then fail k
    else get_current_proc k >>= λ p. cwd_of p >>= λ cwd.
        get_inode_by_path k.fs cwd (user_string k.user s.ebx) >>= λ found. elim found [
          | none ↦ fail k
          | some idx ↦ harden_at k.fs idx >>= λ r. ok (r.0, record k { fs = r.1 })
        ]
