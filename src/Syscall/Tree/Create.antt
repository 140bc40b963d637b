-- ===== src/Syscall/Tree/Create.antt =====
-- sys_create of kernel/src/syscall.c and the look-up of the new name.
use mathlib.Core.Path.{ap₂}
use foxtail.Common.{
  ℕ, ◌<◌, ◌≡◌, ◌≢◌, refl, sym, ap, ◌∙◌, subst, inl, inr, true, false, Option, none, some, List,
  arith, length, get_elem?, set, get_elem?-lt, get_elem?-set_self, get_elem?-set_ne, Bool-cases,
  Option-cases, ok, ◌>>=◌, >>=-eq-ok, some_injective, ◌==◌, leb,
}
use foxtail.Fs.Defs.{Fs, Inode, FileType, file, directory, symlink, unallocated, same_type, ndirect}
use foxtail.Fs.Inodes.{alloc_inode}
use foxtail.Fs.Paths.{get_inode_by_path}
use foxtail.Fs.Paths.Entries.{Renamed, with_entry, lookup_added}
use foxtail.Syscall.Tree.{bad_name, new_inode, make, make_if_absent, create_in}
use foxtail.Syscall.Tree.Made.{bad_name-plain, make-Made, Made}

-- What a creation leaves, apart from the new inode and the directory, has its old names.
Made-Renamed :
    (fs fs' : Fs) (parent : ℕ) (name : List ℕ) (kind : FileType) (dir : Inode)
    → (m : Made fs parent name kind fs') → get_elem? fs.inodes parent ≡ some dir
    → parent ≢ m.idx
    → Renamed fs fs' m.idx (new_inode m.old name parent kind 0)
Made-Renamed fs fs' parent name kind dir m dir_at apart = record {
  at =
      ap (λ l. get_elem? l m.idx) m.result
      ∙ get_elem?-set_ne (set fs.inodes m.idx new) (with_entry m.dir m.idx) apart
      ∙ get_elem?-set_self fs.inodes m.idx new (get_elem?-lt fs.inodes m.idx m.at);
  others = others;
}
  where
    new : Inode
    new = new_inode m.old name parent kind 0

    table : List Inode
    table = set fs.inodes m.idx new

    others :
        (e : ℕ) (temp : Inode)
        → e ≢ m.idx
        → get_elem? fs.inodes e ≡ some temp
        → (temp' : Inode) × (get_elem? fs'.inodes e ≡ some temp') × (temp'.name ≡ temp.name)
    others e temp other at = elim (Bool-cases (e == parent)) [
      | inl same ↦
          let it : e ≡ parent = ground arith in
          let here : get_elem? table parent ≡ some temp =
            get_elem?-set_ne fs.inodes new (λ q. apart (sym q))
            ∙ ap (get_elem? fs.inodes) (sym it)
            ∙ at in
          (
            with_entry m.dir m.idx,
            ap₂ get_elem? m.result it
                ∙ get_elem?-set_self table parent (with_entry m.dir m.idx)
                    (get_elem?-lt table parent m.dir_at),
            ap (λ (x : Inode). x.name) (some_injective (sym m.dir_at ∙ here)),
          )
      | inr away ↦ (
        temp,
        ap (λ l. get_elem? l e) m.result
            ∙ get_elem?-set_ne table (with_entry m.dir m.idx) (ground arith)
            ∙ get_elem?-set_ne fs.inodes new (λ q. other (sym q))
            ∙ at,
        refl,
      )
    ]

not_free :
    (fs : Fs) (parent idx : ℕ) (dir old : Inode)
    → get_elem? fs.inodes parent ≡ some dir
    → get_elem? fs.inodes idx ≡ some old
    → same_type dir.file_type directory ≡ true
    → same_type old.file_type unallocated ≡ true
    → parent ≢ idx
not_free fs parent idx dir old at at' is free e =
    let same : dir ≡ old = some_injective (sym at ∙ ap (get_elem? fs.inodes) e ∙ at') in
    clash dir.file_type is (ap (λ (x : Inode). same_type x.file_type unallocated) same ∙ free)
  where
    clash : (t : FileType) → same_type t directory ≡ true → same_type t unallocated ≡ true → ⊥
    clash directory h k = cc
    clash file h k = cc
    clash symlink h k = cc
    clash unallocated h k = cc

-- The checks that a successful sys_create has passed.
record Passed (fs : Fs) (parent : ℕ) (name : List ℕ) (kind : FileType) (fs' : Fs) : Type 0 where
  dir : Inode
  at : get_elem? fs.inodes parent ≡ some dir
  is : same_type dir.file_type directory ≡ true
  plain : bad_name name ≡ false
  absent : get_inode_by_path fs parent name ≡ ok none
  made : make fs parent name kind ≡ ok (0, fs')

make_if_absent-none :
    (fs fs' : Fs) (parent : ℕ) (name : List ℕ) (kind : FileType) (found : Option ℕ)
    → make_if_absent fs parent name kind found ≡ ok (0, fs')
    → (found ≡ none) × (make fs parent name kind ≡ ok (0, fs'))
unfolding make_if_absent
make_if_absent-none fs fs' parent name kind none run = (refl, run)
make_if_absent-none fs fs' parent name kind (some old) run = absurd (ground arith)

create_in-Passed :
    (fs fs' : Fs) (parent : ℕ) (name : List ℕ) (kind : FileType)
    → create_in fs parent name kind ≡ ok (0, fs')
    → Passed fs parent name kind fs'
unfolding create_in
create_in-Passed fs fs' parent name kind run = elim (Option-cases (get_elem? fs.inodes parent)) [
  | inl missing ↦ absurd (ground arith)
  | inr (dir, at) ↦ elim (Bool-cases (same_type dir.file_type directory)) [
    | inr other ↦ absurd (ground arith)
    | inl is ↦ elim (Bool-cases (leb ndirect dir.word0)) [
      | inl full ↦ absurd (ground arith)
      | inr room ↦ elim (Bool-cases (bad_name name)) [
        | inl bad ↦ absurd (ground arith)
        | inr plain ↦
            let body : (get_inode_by_path fs parent name >>= λ found.
            make_if_absent fs parent name kind found)
                ≡ ok (0, fs') =
              ground arith in
            let (found, looked_up, last) = >>=-eq-ok (get_inode_by_path fs parent name) _ body in
            let (missing, made) = make_if_absent-none fs fs' parent name kind found last in
            record {
              dir = dir;
              at = at;
              is = is;
              plain = plain;
              absent = looked_up ∙ ap ok missing;
              made = made;
            }
      ]
    ]
  ]
]

-- A file or directory that sys_create has made in a directory is found there under its name, at the
-- first unallocated inode, which now has that name and parent and is valid.
pub create_in_lem :
    (fs fs' : Fs) (parent : ℕ) (name : List ℕ) (kind : FileType)
    → create_in fs parent name kind ≡ ok (0, fs')
    → (idx : ℕ) × (new : Inode) × (alloc_inode fs ≡ some idx)
      × (get_elem? fs'.inodes idx ≡ some new)
      × (new.name ≡ name)
      × (new.parent ≡ parent)
      × (new.file_type ≡ kind)
      × (new.valid ≡ 1)
      × (get_inode_by_path fs' parent name ≡ ok (some idx))
unfolding new_inode
create_in_lem fs fs' parent name kind run =
    let p = create_in-Passed fs fs' parent name kind run in
    let m = make-Made fs fs' parent name kind p.made in
    let new = new_inode m.old name parent kind 0 in
    let apart = not_free fs parent m.idx p.dir m.old p.at m.at p.is m.free in
    let r = Made-Renamed fs fs' parent name kind p.dir m p.at apart in
    let (plain, short) = bad_name-plain name p.plain in
    let same : m.dir ≡ p.dir =
      some_injective (sym m.dir_at ∙ get_elem?-set_ne fs.inodes new (λ e. apart (sym e)) ∙ p.at) in
    let table = set fs.inodes m.idx new in
    let written : get_elem? fs'.inodes parent ≡ some (with_entry p.dir m.idx) =
      ap (λ l. get_elem? l parent) m.result
      ∙ get_elem?-set_self table parent (with_entry m.dir m.idx)
          (get_elem?-lt table parent m.dir_at)
      ∙ ap (λ d. some (with_entry d m.idx)) same in
    (
      m.idx,
      new,
      m.found,
      r.at,
      refl,
      refl,
      refl,
      refl,
      lookup_added fs fs' m.idx parent new p.dir name r refl p.at written p.is
          (subst (λ (d : Inode). d.word0 < length d.slots) same m.slot) plain short p.absent,
    )
