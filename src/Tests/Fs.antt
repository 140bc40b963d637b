-- ===== src/Tests/Fs.antt =====
-- kernel/src/fs.c on a small tree: the root 0, its directory `bin` at 1, `bin/sh` at 2, and links at
-- 3 (to 2), 4 (to 3) and 5 (to itself).
use foxtail.Common.{
  ℕ, zero, suc, ◌≤◌, ◌≡◌, ◌↔◌, refl, true, false, Option, some, none, List, [], ◌∷◌, arith,
  get_elem?, replicate, ok, fault,
}
use foxtail.Fs.Defs.{Fs, Inode, FileType, file, directory, symlink, same_type}
use foxtail.Fs.Blocks.{alloc_block}
use foxtail.Fs.Blocks.Laws.{AllocBlock, alloc_block_lem}
use foxtail.Fs.Links.{follow_symlink, symlink_recursion_limit}
use foxtail.Fs.Links.Laws.{Chain, LinksInside, follow_symlink_iff, follow_symlink_total}
use foxtail.Fs.Paths.{get_inode_by_path}
use foxtail.Fs.Paths.Components.{components}
use foxtail.Fs.Paths.Resolve.{resolve, get_inode_by_path_lem}

abbrev node : List ℕ → FileType → ℕ → ℕ → List ℕ → Inode
node name kind parent word slots = record {
  name = name;
  file_type = kind;
  parent = parent;
  word0 = word;
  slots = slots;
  valid = 1;
  num_refs = 0;
}

abbrev bin : List ℕ
bin = b'b' ∷ b'i' ∷ b'n' ∷ []

abbrev sh : List ℕ
sh = b's' ∷ b'h' ∷ []

abbrev tree : Fs
tree = record {
  bitmap = 255 ∷ 1 ∷ replicate 14 0;
  inodes =
      node (b'~' ∷ []) directory 0 1 (1 ∷ [])
      ∷ node bin directory 0 1 (2 ∷ [])
      ∷ node sh file 1 0 (9 ∷ [])
      ∷ node (b'a' ∷ []) symlink 0 2 []
      ∷ node (b'b' ∷ []) symlink 0 3 []
      ∷ node (b'c' ∷ []) symlink 0 5 []
      ∷ [];
  disk = λ _. 0;
}

-- "/bin//sh"
abbrev bin_sh : List ℕ
bin_sh = b'/' ∷ b'b' ∷ b'i' ∷ b'n' ∷ b'/' ∷ b'/' ∷ b's' ∷ b'h' ∷ []

bin_sh_found : get_inode_by_path tree 0 bin_sh ≡ ok (some 2)
unfolding get_inode_by_path
bin_sh_found = refl

link_followed : follow_symlink tree 4 ≡ ok (some 2)
unfolding follow_symlink
link_followed = refl

cycle_stops : follow_symlink tree 5 ≡ ok none
unfolding follow_symlink
cycle_stops = refl

-- A path through the dangling or cyclic link reads a null pointer.
cycle_faults : get_inode_by_path tree 5 bin_sh ≡ fault
unfolding get_inode_by_path
cycle_faults = refl

tree-LinksInside : LinksInside tree
tree-LinksInside zero inode e kind = ground arith
tree-LinksInside (suc zero) inode e kind = ground arith
tree-LinksInside (suc (suc zero)) inode e kind = ground arith
tree-LinksInside (suc (suc (suc zero))) inode e kind = ground arith
tree-LinksInside (suc (suc (suc (suc zero)))) inode e kind = ground arith
tree-LinksInside (suc (suc (suc (suc (suc zero))))) inode e kind = ground arith
tree-LinksInside (suc (suc (suc (suc (suc (suc i)))))) inode e kind = ground arith

alloc_block_lem_example :
    (r : ℕ) × (fs' : Fs) × (alloc_block tree ≡ ok (r, fs')) × AllocBlock tree 0 r fs'
alloc_block_lem_example = alloc_block_lem tree (omega arith)

follow_symlink_iff_example :
    (follow_symlink tree 4 ≡ ok (some 2))
    ↔ ((n : ℕ) × (n ≤ symlink_recursion_limit) × Chain tree n 4 2)
follow_symlink_iff_example = follow_symlink_iff tree 4 2

follow_symlink_total_example :
    (r : Option ℕ) × (follow_symlink tree 5 ≡ ok r)
    × ((j : ℕ)
        → r ≡ some j
        → (inode : Inode) × (get_elem? tree.inodes j ≡ some inode)
          × (same_type inode.file_type symlink ≡ false))
follow_symlink_total_example = follow_symlink_total tree 5 tree-LinksInside (omega arith)

get_inode_by_path_lem_example :
    get_inode_by_path tree 0 bin_sh ≡ resolve tree (some 0) (components bin_sh) true
get_inode_by_path_lem_example = get_inode_by_path_lem tree 0 bin_sh
