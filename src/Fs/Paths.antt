-- ===== src/Fs/Paths.antt =====
-- get_inode_by_path of kernel/src/fs.c. A path is the list of the bytes before its NUL.
pub mod Components
pub mod Entries
pub mod Resolve
use foxtail.Common.{
  ℕ, zero, suc, ◌+◌, ◌-◌, Bool, true, false, Option, none, some, List, [], ◌∷◌, Outcome, ok, fault,
  spin, ◌>>=◌, leb, ◌==◌, if◌then◌else◌, length,
}
use foxtail.KString.{list_eq}
use foxtail.Fs.Defs.{Fs, Inode, FileType, file, same_type, inode_at, slot_at, filename_max_len}
use foxtail.Fs.Links.{follow_symlink}

-- `while (path[0] == '/') path++`
pub skip_slashes : List ℕ → List ℕ
skip_slashes [] = []
skip_slashes (c ∷ path) = if c == b'/' then skip_slashes path else c ∷ path

-- The loop that fills `path_buf`: what it copied, and `path + i`. It stops at FILENAME_MAX_LEN bytes.
pub component : ℕ → List ℕ → List ℕ × List ℕ
component zero path = ([], path)
component (suc room) [] = ([], [])
component (suc room) (c ∷ path) =
    let (elem, rest) = component room path in if c == b'/' then ([], c ∷ path) else (c ∷ elem, rest)

-- `for (j = 0; j < num_entries; j++) if (strcmp(temp->name, path_buf) == 0) …`, from `j` on.
pub find_entry : ℕ → ℕ → Fs → Inode → List ℕ → Outcome (Option ℕ)
find_entry zero j fs base elem = ok none
find_entry (suc rounds) j fs base elem =
    let rest = find_entry rounds (j + 1) fs base elem in
    slot_at base j >>= λ idx.
    inode_at fs idx >>= λ temp. if list_eq temp.name elem then ok (some idx) else rest

abbrev pub root_path : List ℕ
root_path = b'~' ∷ []

abbrev pub dot : List ℕ
dot = b'.' ∷ []

abbrev pub dot_dot : List ℕ
dot_dot = b'.' ∷ b'.' ∷ []

-- The inode that the element `elem` names in `base`, which has index `idx`.
pub next_inode : Fs → ℕ → Inode → List ℕ → Bool → Outcome (Option ℕ)
unfolding find_entry list_eq
next_inode fs idx base elem first_elem =
    if list_eq elem dot
    then ok (some idx)
    else if list_eq elem dot_dot
    then ok (some base.parent)
    else if list_eq elem root_path
    then (if first_elem then ok (some 0) else ok none)
    else find_entry base.word0 0 fs base elem

-- One element: `base` is followed through symbolic links (a null result is read as a pointer), and
-- a name of FILENAME_MAX_LEN bytes or more has its NUL written behind `path_buf`.
pub walk_element : Fs → ℕ → List ℕ → Bool → Outcome (Option ℕ)
unfolding next_inode follow_symlink
walk_element fs base elem first_elem = follow_symlink fs base >>= λ followed. elim followed [
  | none ↦ fault
  | some idx ↦ inode_at fs idx >>= λ inode.
      if same_type inode.file_type file
      then ok none
      else if leb filename_max_len (length elem)
      then fault
      else next_inode fs idx inode elem first_elem
]

pub get_inode_by_path_helper : ℕ → Fs → Option ℕ → List ℕ → Bool → Outcome (Option ℕ)
get_inode_by_path_helper zero fs base path first_elem = spin
get_inode_by_path_helper (suc fuel) fs none path first_elem = ok none
get_inode_by_path_helper (suc fuel) fs (some base) path first_elem =
    let path' = skip_slashes path in
    let (elem, rest) = component filename_max_len path' in
    let descend = walk_element fs base elem first_elem >>= λ next.
    get_inode_by_path_helper fuel fs next rest false in
    elim path' [ [] ↦ ok (some base) | c ∷ more ↦ descend ]

-- Every call takes at least one byte of the path, so its length bounds the depth (Components).
unfoldable pub get_inode_by_path : Fs → ℕ → List ℕ → Outcome (Option ℕ)
unfolding get_inode_by_path_helper walk_element component skip_slashes
get_inode_by_path fs base path = get_inode_by_path_helper (length path + 2) fs (some base) path true
