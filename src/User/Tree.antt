-- ===== src/User/Tree.antt =====
-- The programs that change the tree of files: user/src/create.c, link.c, mv.c, rm.c and harden.c.
-- Their messages are left out.
pub mod Parts
use foxtail.Common.{
  ℕ, zero, suc, ◌+◌, ◌-◌, Bool, true, false, List, [], ◌∷◌, ◌++◌, take, drop, length, get_or,
  Outcome, ok, fault, ◌>>=◌, ◌==◌, if◌then◌else◌,
}

-- The system calls, on a state `S` of the rest of the system.
pub record TreeCalls (S : Type 0) : Type 0 where
  pub create : List ℕ → List ℕ → Bool → S → ℕ × S
  pub delete : List ℕ → S → ℕ × S
  pub link : List ℕ → List ℕ → List ℕ → S → ℕ × S
  pub harden : List ℕ → S → ℕ × S

-- The loop that looks for the last slash: its index, or `found` if there is none from index `i` on.
unfoldable pub last_slash : ℕ → ℕ → List ℕ → ℕ
last_slash i found [] = found
last_slash i found (c ∷ s) = last_slash (i + 1) (if c == b'/' then i else found) s

-- The directory and the name that link.c and mv.c make of a path; a slash in front counts as none.
unfoldable pub link_parts : List ℕ → List ℕ × List ℕ
unfolding last_slash
link_parts linkpath =
    let n = last_slash 0 0 linkpath in
    if n == 0 then ([], linkpath) else (take n linkpath, drop (n + 1) linkpath)

-- Those that create.c makes: the name still points at the slash, which a NUL has replaced.
unfoldable pub create_parts : List ℕ → List ℕ × List ℕ
unfolding last_slash
create_parts dirname =
    let n = last_slash 0 0 dirname in if n == 0 then (b'.' ∷ [], dirname) else (take n dirname, [])

-- One argument of create.c: a slash at the end stands for a directory.
unfoldable pub create_one : {S : Type 0} → TreeCalls S → List ℕ → S → Outcome S
unfolding create_parts
create_one sys [] s = fault
create_one sys (c ∷ arg) s =
    let len = length (c ∷ arg) in
    let dir = get_or (c ∷ arg) (len - 1) 0 == b'/' in
    let (dirname, filename) = create_parts (if dir then take (len - 1) (c ∷ arg) else c ∷ arg) in
    let (_, s') = sys.create dirname filename dir s in ok s'

-- The loop over the arguments.
unfoldable pub create_all : {S : Type 0} → TreeCalls S → List (List ℕ) → S → Outcome S
unfolding create_one
create_all sys [] s = ok s
create_all sys (arg ∷ args) s = create_one sys arg s >>= create_all sys args

unfoldable pub link_to : {S : Type 0} → TreeCalls S → List ℕ → List ℕ → S → S
unfolding link_parts
link_to sys target linkpath s =
    let (dir, name) = link_parts linkpath in let (_, s') = sys.link target dir name s in s'

-- mv.c goes on where the link cannot be made.
unfoldable pub move : {S : Type 0} → TreeCalls S → List ℕ → List ℕ → S → S
unfolding link_to
move sys target linkpath s =
    let (_, s1) = sys.delete linkpath s in
    let (_, s2) = sys.harden linkpath (link_to sys target linkpath s1) in
    let (_, s3) = sys.delete target s2 in s3

unfoldable pub remove_all : {S : Type 0} → TreeCalls S → List (List ℕ) → S → S
remove_all sys [] s = s
remove_all sys (arg ∷ args) s = let (_, s') = sys.delete arg s in remove_all sys args s'

unfoldable pub harden_all : {S : Type 0} → TreeCalls S → List (List ℕ) → S → S
harden_all sys [] s = s
harden_all sys (arg ∷ args) s = let (_, s') = sys.harden arg s in harden_all sys args s'
