-- ===== src/Fs/Paths/Resolve.antt =====
-- What an element of a path means to get_inode_by_path of kernel/src/fs.c, and with it a whole path.
use foxtail.Common.{
  ℕ, zero, suc, ◌+◌, ◌≡◌, sym, ap, ◌∙◌, Bool, true, false, Option, none, some, List, [], ◌∷◌, arith,
  length, take, get_elem?, zero-add, leb, if◌then◌else◌, Outcome, ok, fault, ◌>>=◌, bind_ext,
}
use foxtail.KString.{list_eq}
use foxtail.Fs.Defs.{Fs, Inode, file, same_type, inode_at, filename_max_len}
use foxtail.Fs.Links.{follow_symlink}
use foxtail.Fs.Paths.{find_entry, next_inode, walk_element, get_inode_by_path}
use foxtail.Fs.Paths.Components.{
  walk, components, get_inode_by_path-walk, walk_none, walk-nil, walk-cons,
}

-- The first of the entries with the name `elem`; `last` where there is none.
search : Fs → List ℕ → List ℕ → Outcome (Option ℕ) → Outcome (Option ℕ)
unfolding list_eq
search fs [] elem last = last
search fs (i ∷ entries) elem last =
    let rest = search fs entries elem last in
    inode_at fs i >>= λ child. if list_eq child.name elem then ok (some i) else rest

-- The entries end inside the slots, or are read behind them.
abbrev end_of : ℕ → List ℕ → Outcome (Option ℕ)
end_of num slots = if leb num (length slots) then ok none else fault

-- The names with a meaning of their own, in the directory `dir` with index `idx`: `~` is the root, in
-- the first element only, and leads nowhere in the others.
abbrev reserved : ℕ → Inode → Bool → List (List ℕ × Option ℕ)
reserved idx dir first =
    (b'.' ∷ [], some idx)
    ∷ (b'.' ∷ b'.' ∷ [], some dir.parent)
    ∷ (b'~' ∷ [], if first then some 0 else none)
    ∷ []

-- A reserved name has its meaning, and any other is looked for among the directory's entries.
meaning : List (List ℕ × Option ℕ) → Fs → Inode → List ℕ → Outcome (Option ℕ)
unfolding search list_eq
meaning [] fs dir elem = search fs (take dir.word0 dir.slots) elem (end_of dir.word0 dir.slots)
meaning ((name, target) ∷ names) fs dir elem =
    let rest = meaning names fs dir elem in if list_eq elem name then ok target else rest

-- One element from `base`, which is followed through symbolic links: a file has no elements, and a
-- name has less than 28 bytes.
element : Fs → ℕ → Bool → List ℕ → Outcome (Option ℕ)
unfolding meaning follow_symlink
element fs base first elem = follow_symlink fs base >>= λ target. elim target [
  | none ↦ fault
  | some idx ↦ inode_at fs idx >>= λ dir.
      if same_type dir.file_type file
      then ok none
      else if leb filename_max_len (length elem)
      then fault
      else meaning (reserved idx dir first) fs dir elem
]

-- The elements of a path one after another, until one leads nowhere.
pub resolve : Fs → Option ℕ → List (List ℕ) → Bool → Outcome (Option ℕ)
unfolding element
resolve fs none es first = ok none
resolve fs (some base) [] first = ok (some base)
resolve fs (some base) (e ∷ es) first = element fs base first e >>= λ next. resolve fs next es false

-- The loop over the entries is the search in the list of them.
find_entry-search :
    (rounds j : ℕ) (rest : List ℕ) (fs : Fs) (base : Inode) (elem : List ℕ)
    → ((k : ℕ) → get_elem? base.slots (j + k) ≡ get_elem? rest k)
    → find_entry rounds j fs base elem ≡ search fs (take rounds rest) elem (end_of rounds rest)
unfolding find_entry search
find_entry-search zero j rest fs base elem same = ground arith
find_entry-search (suc rounds) j [] fs base elem same =
    let missing : get_elem? base.slots j ≡ none =
      sym (ap (get_elem? base.slots) (plus j)) ∙ same 0 in
    ground (arith, missing)
  where
    plus : (j : ℕ) → j + 0 ≡ j
    plus j = omega arith
find_entry-search (suc rounds) j (i ∷ rest) fs base elem same =
    let there : get_elem? base.slots j ≡ some i =
      sym (ap (get_elem? base.slots) (plus j)) ∙ same 0 in
    let others =
      find_entry-search rounds (j + 1) rest fs base elem
        (λ k. ap (get_elem? base.slots) (next j k) ∙ same (suc k)) in
    ground (arith, there, others)
  where
    plus : (j : ℕ) → j + 0 ≡ j
    plus j = omega arith

    next : (j k : ℕ) → j + 1 + k ≡ j + suc k
    next j k = omega arith

next_inode-meaning :
    (fs : Fs) (idx : ℕ) (dir : Inode) (elem : List ℕ) (first : Bool)
    → next_inode fs idx dir elem first ≡ meaning (reserved idx dir first) fs dir elem
unfolding next_inode meaning
next_inode-meaning fs idx dir elem true = ground (
  arith,
  find_entry-search dir.word0 0 dir.slots fs dir elem (λ k. ap (get_elem? dir.slots) (zero-add k)),
)
next_inode-meaning fs idx dir elem false = ground (
  arith,
  find_entry-search dir.word0 0 dir.slots fs dir elem (λ k. ap (get_elem? dir.slots) (zero-add k)),
)

walk_element-element :
    (fs : Fs) (base : ℕ) (elem : List ℕ) (first : Bool)
    → walk_element fs base elem first ≡ element fs base first elem
unfolding walk_element element
walk_element-element fs base elem first i = follow_symlink fs base >>= λ target. elim target [
  | none ↦ fault
  | some idx ↦ inode_at fs idx >>= λ dir.
      if same_type dir.file_type file
      then ok none
      else if leb filename_max_len (length elem)
      then fault
      else next_inode-meaning fs idx dir elem first i
]

walk-resolve :
    (fs : Fs) (base : Option ℕ) (es : List (List ℕ)) (first : Bool)
    → walk fs base es first ≡ resolve fs base es first
unfolding resolve
walk-resolve fs none es first = walk_none fs es first
walk-resolve fs (some base) [] first = walk-nil fs base first
walk-resolve fs (some base) (e ∷ es) first =
    walk-cons fs base e es first
    ∙ bind_ext (walk_element fs base e first) _ _ (λ next. walk-resolve fs next es false)
    ∙ ap (λ r. r >>= λ next. resolve fs next es false) (walk_element-element fs base e first)

-- get_inode_by_path terminates, and its result, a null pointer or a fault included, is that of
-- resolving the elements of the path one after another from the base, for every path: `.` and `..`
-- are the directory and its parent, `~` is the root in the first element and leads nowhere in the
-- others, and any other name of less than 28 bytes is that of the first entry that has it.
pub get_inode_by_path_lem :
    (fs : Fs) (base : ℕ) (path : List ℕ)
    → get_inode_by_path fs base path ≡ resolve fs (some base) (components path) true
get_inode_by_path_lem fs base path =
    get_inode_by_path-walk fs base path ∙ walk-resolve fs (some base) (components path) true
