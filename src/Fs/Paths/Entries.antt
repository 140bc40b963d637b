-- ===== src/Fs/Paths/Entries.antt =====
-- Look-ups of one name in a directory, before and after an entry is added behind the others:
-- get_inode_by_path_helper of kernel/src/fs.c.
use foxtail.Common.{
  ℕ, zero, suc, ◌+◌, ◌<◌, ◌≡◌, ◌≢◌, refl, sym, ap, ◌∙◌, inl, inr, true, false, Option, none, some,
  List, [], ◌∷◌, arith, length, get_elem?, set, get_elem?-set_self, get_elem?-set_ne, Bool-cases,
  Outcome, ok, panic, fault, spin, beyond, ◌>>=◌, >>=-eq-ok, ◌==◌, if◌then◌else◌,
}
use foxtail.KString.{list_eq, list_eq_iff}
use foxtail.Fs.Defs.{
  Fs, Inode, FileType, file, directory, symlink, unallocated, same_type, inode_at, slot_at,
  filename_max_len,
}
use foxtail.Fs.Links.{follow_symlink}
use foxtail.Fs.Links.Laws.{follow_symlink_iff}
use foxtail.Fs.Paths.{find_entry, next_inode, walk_element, get_inode_by_path}
use foxtail.Fs.Paths.Components.{
  split, push, components-nil, walk_none, walk-nil, walk-cons, components, walk,
  get_inode_by_path-walk,
}

-- The table `after` has `new` at index `idx`, and the old names elsewhere.
pub record Renamed (before after : Fs) (idx : ℕ) (new : Inode) : Type 0 where
  pub at : get_elem? after.inodes idx ≡ some new
  pub others :
      (e : ℕ) (temp : Inode)
      → e ≢ idx
      → get_elem? before.inodes e ≡ some temp
      → (temp' : Inode) × (get_elem? after.inodes e ≡ some temp') × (temp'.name ≡ temp.name)

list_eq_refl : (s : List ℕ) → list_eq s s ≡ true
list_eq_refl s = (list_eq_iff s s).1 refl

find_here :
    (n j e : ℕ) (fs : Fs) (dir temp : Inode) (name : List ℕ)
    → get_elem? dir.slots j ≡ some e
    → get_elem? fs.inodes e ≡ some temp
    → find_entry (suc n) j fs dir name
      ≡ (if list_eq temp.name name then ok (some e) else find_entry n (j + 1) fs dir name)
unfolding find_entry
find_here n j e fs dir temp name slot at = ground arith

unfolded :
    (n j : ℕ) (fs : Fs) (dir : Inode) (name : List ℕ)
    → find_entry (suc n) j fs dir name ≡ ok none
    → (slot_at dir j >>= λ e. inode_at fs e >>= λ temp.
        if list_eq temp.name name then ok (some e) else find_entry n (j + 1) fs dir name)
      ≡ ok none
unfolding find_entry
unfolded n j fs dir name h = h

slot_found : (dir : Inode) (j e : ℕ) → slot_at dir j ≡ ok e → get_elem? dir.slots j ≡ some e
slot_found dir j e h = ground arith

inode_found :
    (fs : Fs) (e : ℕ) (temp : Inode) → inode_at fs e ≡ ok temp → get_elem? fs.inodes e ≡ some temp
inode_found fs e temp h = ground arith

-- The directory with an entry behind its others.
abbrev pub with_entry : Inode → ℕ → Inode
with_entry dir idx = record dir { slots = set dir.slots dir.word0 idx; word0 = dir.word0 + 1 }

module _ (before after : Fs) (idx : ℕ) (new dir : Inode) (name : List ℕ) where
  find_past :
      (n j e : ℕ) (temp : Inode)
      → Renamed before after idx new
      → new.name ≡ name
      → j < dir.word0
      → get_elem? dir.slots j ≡ some e
      → get_elem? before.inodes e ≡ some temp
      → (find_entry n (j + 1) before dir name ≡ ok none
          → find_entry (suc n) (j + 1) after (with_entry dir idx) name ≡ ok (some idx))
      → (if list_eq temp.name name then ok (some e) else find_entry n (j + 1) before dir name)
        ≡ ok none
      → find_entry (suc (suc n)) j after (with_entry dir idx) name ≡ ok (some idx)
  find_past n j e temp r named lt slot at more found =
      let slot' : get_elem? (with_entry dir idx).slots j ≡ some e =
        get_elem?-set_ne dir.slots idx (λ e. absurd (omega arith)) ∙ slot in
      elim (Bool-cases (e == idx)) [
        | inl same ↦
            let it : e ≡ idx = ground arith in
            find_here (suc n) j idx after (with_entry dir idx) new name (slot' ∙ ap some it) r.at
            ∙ rw (named, list_eq_refl name)
        | inr other ↦
            let (temp', at', kept) = r.others e temp (ground arith) at in
            let missed : list_eq temp.name name ≡ false = ground arith in
            let differs : list_eq temp'.name name ≡ false =
              ap (λ l. list_eq l name) kept ∙ missed in
            find_here (suc n) j e after (with_entry dir idx) temp' name slot' at'
            ∙ rw differs (more (ground arith))
      ]

  -- The search that found nothing before finds the new entry behind the old ones.
  find_extended :
      (n j : ℕ)
      → Renamed before after idx new
      → new.name ≡ name
      → dir.word0 < length dir.slots
      → j + n ≡ dir.word0
      → find_entry n j before dir name ≡ ok none
      → find_entry (suc n) j after (with_entry dir idx) name ≡ ok (some idx)
  find_extended zero j r named room last absent =
      let here : j ≡ dir.word0 = omega arith in
      find_here zero j idx after (with_entry dir idx) new name
        (ap (get_elem? (set dir.slots dir.word0 idx)) here
          ∙ get_elem?-set_self dir.slots dir.word0 idx room)
        r.at
      ∙ rw (named, list_eq_refl name)
  find_extended (suc n) j r named room last absent =
      let (e, slot, rest) = >>=-eq-ok (slot_at dir j) _ (unfolded n j before dir name absent) in
      let (temp, at, found) = >>=-eq-ok (inode_at before e) _ rest in
      find_past n j e temp r named (omega arith) (slot_found dir j e slot)
        (inode_found before e temp at) (λ h. find_extended n (j + 1) r named room (omega arith) h)
        found

-- No byte of the name is a path separator.
abbrev pub NoSlash : List ℕ → Type 0
NoSlash [] = Unit
NoSlash (c ∷ s) = (c ≢ b'/') × NoSlash s

split_one : (s : List ℕ) → NoSlash s → split s ≡ (s, [])
unfolding split
split_one [] h = refl
split_one (c ∷ s) (other, h) = ground (arith, split_one s h)

components-split : (path : List ℕ) → components path ≡ push (split path).0 (split path).1
unfolding components
components-split path = refl

walk_rest : (fs : Fs) (m : Outcome (Option ℕ)) → (m >>= λ next. walk fs next [] false) ≡ m
walk_rest fs (ok none) = walk_none fs [] false
walk_rest fs (ok (some base)) = walk-nil fs base false
walk_rest fs panic = refl
walk_rest fs beyond = refl
walk_rest fs fault = refl
walk_rest fs spin = refl

-- A name is the only element of itself as a path.
walk_name :
    (fs : Fs) (base c : ℕ) (s : List ℕ)
    → NoSlash (c ∷ s)
    → get_inode_by_path fs base (c ∷ s) ≡ walk_element fs base (c ∷ s) true
walk_name fs base c s h =
    get_inode_by_path-walk fs base (c ∷ s)
    ∙ ap (λ es. walk fs (some base) es true)
        (components-split (c ∷ s) ∙ ap (λ x. push x.0 x.1) (split_one (c ∷ s) h))
    ∙ walk-cons fs base (c ∷ s) [] true
    ∙ walk_rest fs (walk_element fs base (c ∷ s) true)

-- A directory is where its elements are looked up.
walk_directory :
    (fs : Fs) (base : ℕ) (dir : Inode) (elem : List ℕ)
    → get_elem? fs.inodes base ≡ some dir
    → same_type dir.file_type directory ≡ true
    → length elem < filename_max_len
    → walk_element fs base elem true ≡ next_inode fs base dir elem true
unfolding walk_element
walk_directory fs base dir elem at is short =
    let no_link : same_type dir.file_type symlink ≡ false = not_link dir.file_type is in
    let no_file : same_type dir.file_type file ≡ false = not_file dir.file_type is in
    let stays : follow_symlink fs base ≡ ok (some base) =
      (follow_symlink_iff fs base base).1 (0, omega arith, (dir, at, no_link, refl)) in
    ground arith
  where
    not_link : (t : FileType) → same_type t directory ≡ true → same_type t symlink ≡ false
    not_link directory h = refl
    not_link file h = cc
    not_link symlink h = cc
    not_link unallocated h = cc

    not_file : (t : FileType) → same_type t directory ≡ true → same_type t file ≡ false
    not_file directory h = refl
    not_file file h = cc
    not_file symlink h = cc
    not_file unallocated h = cc

-- A name that is not found is an ordinary one: it is looked up among the entries.
next_absent :
    (fs fs' : Fs) (base : ℕ) (dir dir' : Inode) (elem : List ℕ)
    → next_inode fs base dir elem true ≡ ok none
    → (find_entry dir.word0 0 fs dir elem ≡ ok none)
      × (next_inode fs' base dir' elem true ≡ find_entry dir'.word0 0 fs' dir' elem)
unfolding next_inode
next_absent fs fs' base dir dir' elem h = ground arith

-- A name that is not found in a directory, without a slash and short enough, is found once an inode
-- of that name is entered behind the other entries.
pub lookup_added :
    (before after : Fs) (idx base : ℕ) (new dir : Inode) (name : List ℕ)
    → Renamed before after idx new
    → new.name ≡ name
    → get_elem? before.inodes base ≡ some dir
    → get_elem? after.inodes base ≡ some (with_entry dir idx)
    → same_type dir.file_type directory ≡ true
    → dir.word0 < length dir.slots
    → NoSlash name
    → length name < filename_max_len
    → get_inode_by_path before base name ≡ ok none
    → get_inode_by_path after base name ≡ ok (some idx)
lookup_added before after idx base new dir [] r named at at' is room plain short absent =
    let found : get_inode_by_path before base [] ≡ ok (some base) =
      get_inode_by_path-walk before base []
      ∙ ap (λ es. walk before (some base) es true) components-nil
      ∙ walk-nil before base true in
    absurd (cc)
lookup_added before after idx base new dir (c ∷ s) r named at at' is room plain short absent =
    let (missing, ordinary) = next_absent before after base dir (with_entry dir idx) (c ∷ s) (
      sym (walk_directory before base dir (c ∷ s) at is short)
      ∙ sym (walk_name before base c s plain)
      ∙ absent) in
    walk_name after base c s plain
    ∙ walk_directory after base (with_entry dir idx) (c ∷ s) at' is short
    ∙ ordinary
    ∙ ap (λ n. find_entry n 0 after (with_entry dir idx) (c ∷ s)) (more dir.word0)
    ∙ find_extended before after idx new dir (c ∷ s) dir.word0 0 r named room (omega arith) missing
  where
    more : (n : ℕ) → n + 1 ≡ suc n
    more n = omega arith
