-- ===== src/Syscall/Tree/Delete.antt =====
-- sys_delete of kernel/src/syscall.c: what it does to the parent's entries.
use foxtail.Common.{
  ℕ, zero, suc, ◌+◌, ◌≤◌, ◌≡◌, refl, sym, ap, ◌∙◌, List, [], ◌∷◌, ◌++◌, zero-add, arith, length,
  take, drop, ok,
}
use foxtail.Fs.Defs.{Fs, Inode}
use foxtail.Syscall.Tree.{remove_entries}
use foxtail.Syscall.Tree.Entries.{entries_of, without, with_entries, remove_from}

take_all : (w j : List ℕ) → take (length w) (w ++ j) ≡ w
take_all [] j = refl
take_all (x ∷ w) j = ap (λ l. x ∷ l) (take_all w j)

take-drop : (n : ℕ) (l : List ℕ) → take n l ++ drop n l ≡ l
take-drop zero l = refl
take-drop (suc n) [] = refl
take-drop (suc n) (x ∷ l) = ap (λ r. x ∷ r) (take-drop n l)

length-take_le : (n : ℕ) (l : List ℕ) → n ≤ length l → length (take n l) ≡ n
length-take_le zero l le = refl
length-take_le (suc n) [] le = absurd (omega arith)
length-take_le (suc n) (x ∷ l) le = ap suc (length-take_le n l (omega arith))

-- In a directory whose entries are all among its slots, the loop of sys_delete terminates inside
-- them and leaves exactly the entries that are not the deleted inode, in their order; a second
-- entry of the same inode goes too, and nothing else of the directory changes.
pub remove_entries_lem :
    (idx : ℕ) (parent : Inode)
    → parent.word0 ≤ length parent.slots
    → (parent' : Inode) × (remove_entries parent.word0 0 idx parent ≡ ok parent')
      × (entries_of parent' ≡ without idx (entries_of parent))
      × (parent' ≡ record parent { word0 = parent'.word0; slots = parent'.slots })
remove_entries_lem idx parent le =
    let r = entries_of parent in
    let num = length-take_le parent.word0 parent.slots le in
    let (j', run) =
      remove_from r [] (drop parent.word0 parent.slots) idx parent
        (sym (take-drop parent.word0 parent.slots)) (omega (arith, num)) in
    let w = without idx r in
    (
      with_entries parent (0 + length w) (w ++ j'),
      ap (λ n. remove_entries n 0 idx parent) (sym num) ∙ run,
      ap (λ n. take n (w ++ j')) (zero-add (length w)) ∙ take_all w j',
      refl,
    )
