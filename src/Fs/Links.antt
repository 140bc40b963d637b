-- ===== src/Fs/Links.antt =====
-- follow_symlink of kernel/src/fs.c.
pub mod Laws
use foxtail.Common.{
  ℕ, zero, suc, ◌+◌, Option, none, some, Outcome, ok, spin, ◌>>=◌, ltb, if◌then◌else◌,
}
use foxtail.Fs.Defs.{Fs, unallocated, symlink, same_type, inode_at}

-- SYMLINK_RECURSION_LIMIT
abbrev pub symlink_recursion_limit : ℕ
symlink_recursion_limit = 10

-- The `while` loop at `depth`; `none` is the null pointer.
pub follow_loop : ℕ → Fs → ℕ → ℕ → Outcome (Option ℕ)
follow_loop zero fs depth link = spin
follow_loop (suc fuel) fs depth link = inode_at fs link >>= λ inode.
    let target = inode.word0 in
    let again = follow_loop fuel fs (depth + 1) target in
    let next = inode_at fs target >>= λ t.
    if same_type t.file_type unallocated
    then ok none
    else if ltb symlink_recursion_limit (depth + 1)
    then ok none
    else again in
    if same_type inode.file_type symlink then next else ok (some link)

-- The loop makes at most 11 rounds (Laws).
unfoldable pub follow_symlink : Fs → ℕ → Outcome (Option ℕ)
unfolding follow_loop
follow_symlink fs link = follow_loop 12 fs 0 link
