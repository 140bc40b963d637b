-- ===== src/Tests/Tree.antt =====
-- sys_create and sys_delete of kernel/src/syscall.c in a small directory.
use foxtail.Common.{ℕ, ◌≡◌, refl, some, List, [], ◌∷◌, arith, get_elem?, ok}
use foxtail.Fs.Defs.{Fs, Inode, FileType, file, directory, unallocated}
use foxtail.Fs.Inodes.{alloc_inode}
use foxtail.Fs.Paths.{get_inode_by_path}
use foxtail.Syscall.Tree.{remove_entries, bad_name, create_in}
use foxtail.Syscall.Tree.Entries.{entries_of, without}
use foxtail.Syscall.Tree.Delete.{remove_entries_lem}
use foxtail.Syscall.Tree.Create.{create_in_lem}

abbrev node : List ℕ → FileType → ℕ → List ℕ → ℕ → Inode
node name kind word slots refs = record {
  name = name;
  file_type = kind;
  parent = 0;
  word0 = word;
  slots = slots;
  valid = 1;
  num_refs = refs;
}

abbrev ed : List ℕ
ed = b'e' ∷ b'd' ∷ []

abbrev sh : List ℕ
sh = b's' ∷ b'h' ∷ []

-- The root with the file `ed` at 1, which is open twice, and a free inode at 2.
abbrev root : Inode
root = node (b'~' ∷ []) directory 1 (1 ∷ 0 ∷ 0 ∷ []) 0

abbrev small : Fs
small = record {
  bitmap = [];
  inodes = root ∷ node ed file 0 [] 2 ∷ node [] unallocated 0 [] 0 ∷ [];
  disk = λ _. 0;
}

abbrev with_sh : Fs
with_sh = record {
  bitmap = [];
  inodes =
      node (b'~' ∷ []) directory 2 (1 ∷ 2 ∷ 0 ∷ []) 0
      ∷ node ed file 0 [] 2
      ∷ node sh file 0 [] 0
      ∷ [];
  disk = λ _. 0;
}

creates : create_in small 0 sh file ≡ ok (0, with_sh)
unfolding create_in alloc_inode get_inode_by_path bad_name
creates = refl

create_in_lem_example :
    (idx : ℕ) × (new : Inode) × (alloc_inode small ≡ some idx)
    × (get_elem? with_sh.inodes idx ≡ some new)
    × (new.name ≡ sh)
    × (new.parent ≡ 0)
    × (new.file_type ≡ file)
    × (new.valid ≡ 1)
    × (get_inode_by_path with_sh 0 sh ≡ ok (some idx))
create_in_lem_example = create_in_lem small with_sh 0 sh file creates

remove_entries_lem_example :
    (parent' : Inode) × (remove_entries 1 0 1 root ≡ ok parent')
    × (entries_of parent' ≡ without 1 (entries_of root))
    × (parent' ≡ record root { word0 = parent'.word0; slots = parent'.slots })
remove_entries_lem_example = remove_entries_lem 1 root (omega arith)

-- `ed` with a block, which is open twice.
abbrev with_block : Inode
with_block = node ed file 5 (9 ∷ []) 2

abbrev blocks : Fs
blocks = record { bitmap = 0 ∷ 2 ∷ []; inodes = root ∷ with_block ∷ []; disk = λ _. 0 }
