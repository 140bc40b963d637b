-- ===== src/Syscall/Tree/Made.antt =====
-- What a successful run of sys_create in kernel/src/syscall.c has done to the inode table.
use foxtail.Common.{
  ℕ, suc, ◌+◌, ◌<◌, ◌≡◌, refl, sym, ap, ◌∙◌, subst, inl, inr, true, false, some, List, [], ◌∷◌,
  arith, length, get_elem?, set, get_elem?-lt, Bool-cases, Option-cases, Outcome, ok, ◌>>=◌,
  >>=-eq-ok, ok_injective, ◌==◌,
}
use foxtail.Fs.Defs.{Fs, Inode, FileType, unallocated, same_type, put_inode, filename_max_len}
use foxtail.Fs.Inodes.{first_unallocated, alloc_inode}
use foxtail.Fs.Paths.Entries.{with_entry, NoSlash}
use foxtail.Syscall.Tree.{has_slash, bad_name, add_entry, new_inode, make}

has_slash-NoSlash : (s : List ℕ) → has_slash s ≡ false → NoSlash s
unfolding has_slash
has_slash-NoSlash [] h = tt
has_slash-NoSlash (c ∷ s) h = elim (Bool-cases (c == b'/')) [
  | inl slash ↦ absurd (ground arith)
  | inr other ↦ (ground arith, has_slash-NoSlash s (ground arith))
]

pub bad_name-plain :
    (name : List ℕ) → bad_name name ≡ false → NoSlash name × (length name < filename_max_len)
unfolding bad_name
bad_name-plain name h = (has_slash-NoSlash name (ground arith), ground arith)

-- The first unallocated inode, with the others before it in use.
first_unallocated_sound :
    (inodes : List Inode) (b idx : ℕ)
    → first_unallocated inodes b ≡ some idx
    → (old : Inode) × (m : ℕ) × (idx ≡ b + m)
      × (get_elem? inodes m ≡ some old)
      × (same_type old.file_type unallocated ≡ true)
unfolding first_unallocated
first_unallocated_sound [] b idx h = ground arith
first_unallocated_sound (x ∷ xs) b idx h = elim (Bool-cases (same_type x.file_type unallocated)) [
  | inl is ↦ (x, 0, ground arith, refl, is)
  | inr other ↦
      let (old, m, sum, at, is) = first_unallocated_sound xs (b + 1) idx (ground arith) in
      (old, suc m, omega arith, at, is)
]

-- What a successful creation has found and done.
pub record Made (fs : Fs) (parent : ℕ) (name : List ℕ) (kind : FileType) (fs' : Fs) : Type 0 where
  pub idx : ℕ
  pub old : Inode
  pub dir : Inode
  pub found : alloc_inode fs ≡ some idx
  pub at : get_elem? fs.inodes idx ≡ some old
  pub free : same_type old.file_type unallocated ≡ true
  pub slot : dir.word0 < length dir.slots
  pub dir_at : get_elem? (set fs.inodes idx (new_inode old name parent kind 0)) parent ≡ some dir
  pub result :
      fs'.inodes
      ≡ set (set fs.inodes idx (new_inode old name parent kind 0)) parent (with_entry dir idx)

-- Adding an entry needs a slot for it.
added_entry :
    (fs fs' : Fs) (parent idx : ℕ)
    → add_entry fs parent idx ≡ ok fs'
    → (dir : Inode) × (get_elem? fs.inodes parent ≡ some dir)
      × (dir.word0 < length dir.slots)
      × (fs'.inodes ≡ set fs.inodes parent (with_entry dir idx))
unfolding add_entry
added_entry fs fs' parent idx run = elim (Option-cases (get_elem? fs.inodes parent)) [
  | inl missing ↦ absurd (ground arith)
  | inr (dir, at) ↦ elim (Option-cases (get_elem? dir.slots dir.word0)) [
    | inl full ↦ absurd (ground arith)
    | inr (word, slot) ↦ (dir, at, get_elem?-lt dir.slots dir.word0 slot, ground arith)
  ]
]

pub make-Made :
    (fs fs' : Fs) (parent : ℕ) (name : List ℕ) (kind : FileType)
    → make fs parent name kind ≡ ok (0, fs')
    → Made fs parent name kind fs'
unfolding make alloc_inode add_entry
make-Made fs fs' parent name kind run = elim (Option-cases (alloc_inode fs)) [
  | inl full ↦ absurd (ground arith)
  | inr (idx, found) ↦
      let (old, m, sum, at, free) = first_unallocated_sound fs.inodes 0 idx found in
      let here : get_elem? fs.inodes idx ≡ some old =
        subst (λ i. get_elem? fs.inodes i ≡ some old) (omega arith) at in
      let fs1 = put_inode fs idx (new_inode old name parent kind 0) in
      let finish : Fs → Outcome (ℕ × Fs) = λ x. ok (0, x) in
      let body : (add_entry fs1 parent idx >>= finish) ≡ ok (0, fs') = ground arith in
      let (fs2, added, last) = >>=-eq-ok (add_entry fs1 parent idx) finish body in
      let (dir, dir_at, slot, table) = added_entry fs1 fs2 parent idx added in
      record {
        idx = idx;
        old = old;
        dir = dir;
        found = found;
        at = here;
        free = free;
        slot = slot;
        dir_at = dir_at;
        result = sym (ap (λ (x : ℕ × Fs). x.1.inodes) (ok_injective last)) ∙ table;
      }
]
