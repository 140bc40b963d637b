-- ===== src/Syscall/Tree.antt =====
-- sys_create and sys_delete of kernel/src/syscall.c. `strcpy` into a name is
-- the new name; its length has been checked.
pub mod Create
pub mod Delete
pub mod Entries
pub mod Made
use foxtail.Common.{
  ℕ, zero, suc, ◌+◌, ◌-◌, ◌%◌, Option, none, some, Bool, true, false, List, [], ◌∷◌, get_elem?, set,
  length, Outcome, ok, fault, panic, ◌>>=◌, leb, ltb, not, ◌==◌, ◌||◌, ◌&&◌, if◌then◌else◌,
}
use foxtail.Fs.Defs.{
  Fs, Inode, FileType, unallocated, file, directory, symlink, same_type, inode_at, put_inode,
  slot_at, ndirect, filename_max_len,
}
use foxtail.Fs.Inodes.{alloc_inode, free_inode}
use foxtail.Fs.Paths.{get_inode_by_path}
use foxtail.Kernel.{
  Kernel, Regs, Reply, fail, get_current_proc, cwd_of, is_valid_user_addr, user_string, minus_one,
}

-- `for (i = 0; i < new_path_len; i++) if (new_path[i] == '/')`
unfoldable pub has_slash : List ℕ → Bool
has_slash [] = false
has_slash (c ∷ s) = if c == b'/' then true else has_slash s

-- `new_path_len > FILENAME_MAX_LEN - 1`, or a path separator in the name.
unfoldable pub bad_name : List ℕ → Bool
unfolding has_slash
bad_name new_path = ltb 27 (length new_path) || has_slash new_path

-- `direct_files[num_entries] = idx; num_entries++`
unfoldable pub add_entry : Fs → ℕ → ℕ → Outcome Fs
add_entry fs dir idx = inode_at fs dir >>= λ parent. slot_at parent parent.word0 >>= λ old. ok (
    put_inode fs dir
      (record parent { slots = set parent.slots parent.word0 idx; word0 = parent.word0 + 1 }))

-- What the new inode becomes; the slots, and for a file its references, are as the last use left them.
unfoldable pub new_inode : Inode → List ℕ → ℕ → FileType → ℕ → Inode
new_inode old name parent kind word = record old {
  name = name;
  parent = parent;
  valid = 1;
  file_type = kind;
  word0 = word;
}

-- The part of sys_create behind the checks of the directory and the name.
unfoldable pub make : Fs → ℕ → List ℕ → FileType → Outcome (ℕ × Fs)
unfolding alloc_inode new_inode add_entry
make fs parent name kind = elim (alloc_inode fs) [
  | none ↦ ok (minus_one, fs)
  | some idx ↦ inode_at fs idx >>= λ old.
      add_entry (put_inode fs idx (new_inode old name parent kind 0)) parent idx >>= λ fs'.
      ok (0, fs')
]

make_if_absent : Fs → ℕ → List ℕ → FileType → Option ℕ → Outcome (ℕ × Fs)
make_if_absent fs parent name kind none = make fs parent name kind
make_if_absent fs parent name kind (some old) = ok (minus_one, fs)

-- sys_create from the look-up of the parent on.
unfoldable pub create_in : Fs → ℕ → List ℕ → FileType → Outcome (ℕ × Fs)
unfolding make make_if_absent
create_in fs parent new_path kind = inode_at fs parent >>= λ dir.
    if not (same_type dir.file_type directory)
    then ok (minus_one, fs)
    else if leb ndirect dir.word0
    then ok (minus_one, fs)
    else if bad_name new_path
    then ok (minus_one, fs)
    else get_inode_by_path fs parent new_path >>= λ found.
        make_if_absent fs parent new_path kind found

pub sys_create : Regs → Kernel → Reply
unfolding create_in
sys_create s k =
    if not (is_valid_user_addr s.ebx) || not (is_valid_user_addr s.ecx)
    then fail k
    else if not (s.edx == 0) && not (s.edx == 1)
    then fail k
    else get_current_proc k >>= λ p. cwd_of p >>= λ cwd.
        get_inode_by_path k.fs cwd (user_string k.user s.ebx) >>= λ found. elim found [
          | none ↦ fail k
          | some parent ↦
              create_in k.fs parent (user_string k.user s.ecx)
                (if s.edx == 0 then file else directory)
              >>= λ r. ok (r.0, record k { fs = r.1 })
        ]

-- `for (j = i; j < num_entries - 1; j++) direct_files[j] = direct_files[j + 1]`, from `j` on.
unfoldable pub shift_down : ℕ → ℕ → List ℕ → Outcome (List ℕ)
shift_down zero j slots = ok slots
shift_down (suc rounds) j slots = elim (get_elem? slots (j + 1)) [
  | none ↦ fault
  | some next ↦ shift_down rounds (j + 1) (set slots j next)
]

-- The loop over the parent's entries at `i`; `rounds` is `num_entries - i`. After a removal `i--`
-- and `i++` cancel, and `num_entries` is one less.
unfoldable pub remove_entries : ℕ → ℕ → ℕ → Inode → Outcome Inode
unfolding shift_down
remove_entries zero i idx parent = ok parent
remove_entries (suc rounds) i idx parent =
    let keep = remove_entries rounds (i + 1) idx parent in
    let remove = shift_down (parent.word0 - 1 - i) i (set parent.slots i 0) >>= λ slots.
    remove_entries rounds i idx (record parent { slots = slots; word0 = parent.word0 - 1 }) in
    slot_at parent i >>= λ entry. if entry == idx then remove else keep

-- sys_delete from the look-up on.
unfoldable pub delete_at : Fs → ℕ → Outcome (ℕ × Fs)
unfolding remove_entries
delete_at fs idx = inode_at fs idx >>= λ inode.
    if same_type inode.file_type directory && not (inode.word0 == 0)
    then ok (minus_one, fs)
    else inode_at fs inode.parent >>= λ parent.
        remove_entries parent.word0 0 idx parent >>= λ parent'.
        let fs' = put_inode fs inode.parent parent' in
        inode_at fs' idx >>= λ inode'.
        if inode'.num_refs == 0
        then (free_inode fs' idx >>= λ fs''. ok (0, fs''))
        else ok (0, put_inode fs' idx (record inode' { valid = 0 }))

pub sys_delete : Regs → Kernel → Reply
unfolding delete_at
sys_delete s k =
    if not (is_valid_user_addr s.ebx)
    then fail k
    else get_current_proc k >>= λ p. cwd_of p >>= λ cwd.
        get_inode_by_path k.fs cwd (user_string k.user s.ebx) >>= λ found. elim found [
          | none ↦ fail k
          | some idx ↦ delete_at k.fs idx >>= λ r. ok (r.0, record k { fs = r.1 })
        ]
