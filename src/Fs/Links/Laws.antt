-- ===== src/Fs/Links/Laws.antt =====
-- follow_symlink of kernel/src/fs.c against chains of links.
use foxtail.Common.{
  ℕ, zero, suc, ◌+◌, ◌≤◌, ◌<◌, ◌≡◌, ◌↔◌, subst, inl, inr, true, false, Option, none, some, arith,
  get_elem?, length, get_elem?_total, Bool-cases, Option-cases, ok, ltb,
}
use foxtail.Fs.Defs.{Fs, Inode, unallocated, symlink, same_type}
use foxtail.Fs.Links.{symlink_recursion_limit, follow_loop, follow_symlink}

-- From inode `i` on, `n` symbolic links, each to an allocated inode, lead to `j`, which is no link.
abbrev pub Chain : Fs → ℕ → ℕ → ℕ → Type 0
Chain fs zero i j =
    (inode : Inode) × (get_elem? fs.inodes i ≡ some inode)
    × (same_type inode.file_type symlink ≡ false)
    × (i ≡ j)
Chain fs (suc n) i j =
    (inode : Inode) × (target : Inode) × (get_elem? fs.inodes i ≡ some inode)
    × (same_type inode.file_type symlink ≡ true)
    × (get_elem? fs.inodes inode.word0 ≡ some target)
    × (same_type target.file_type unallocated ≡ false)
    × Chain fs n inode.word0 j

follow_loop_complete :
    (n fuel depth : ℕ) (fs : Fs) (i j : ℕ)
    → Chain fs n i j
    → depth + n ≤ symlink_recursion_limit
    → n < fuel
    → follow_loop fuel fs depth i ≡ ok (some j)
unfolding follow_loop
follow_loop_complete n zero depth fs i j c le lt = elim lt [ ]
follow_loop_complete zero (suc fuel) depth fs i j (inode, at, kind, same) le lt = ground arith
follow_loop_complete (suc n) (suc fuel) depth fs i j (inode, target, at, kind, at', kind', c) le
      lt =
    ground (
      arith,
      follow_loop_complete n fuel (depth + 1) fs inode.word0 j c (omega arith) (omega arith),
    )

-- One round that goes on: the test of the link, of its target and of the depth.
link_step :
    (fuel depth : ℕ) (fs : Fs) (i j : ℕ) (inode : Inode)
    → get_elem? fs.inodes i ≡ some inode
    → same_type inode.file_type symlink ≡ true
    → follow_loop (suc fuel) fs depth i ≡ ok (some j)
    → (target : Inode) × (get_elem? fs.inodes inode.word0 ≡ some target)
      × (same_type target.file_type unallocated ≡ false)
      × (depth + 1 ≤ symlink_recursion_limit)
      × (follow_loop fuel fs (depth + 1) inode.word0 ≡ ok (some j))
unfolding follow_loop
link_step fuel depth fs i j inode at kind h =
    elim (Option-cases (get_elem? fs.inodes inode.word0)) [
      | inl missing ↦ absurd (ground arith)
      | inr (target, at') ↦ (target, at', ground arith, ground arith, ground arith)
    ]

follow_loop_sound :
    (fuel depth : ℕ) (fs : Fs) (i j : ℕ)
    → depth ≤ symlink_recursion_limit
    → follow_loop fuel fs depth i ≡ ok (some j)
    → (n : ℕ) × (depth + n ≤ symlink_recursion_limit) × Chain fs n i j
follow_loop_sound zero depth fs i j le h = absurd (unfold follow_loop in ground arith)
follow_loop_sound (suc fuel) depth fs i j le h = elim (Option-cases (get_elem? fs.inodes i)) [
  | inl missing ↦ absurd (unfold follow_loop in ground arith)
  | inr (inode, at) ↦ elim (Bool-cases (same_type inode.file_type symlink)) [
    | inr kind ↦ (0, omega arith, (inode, at, kind, unfold follow_loop in ground arith))
    | inl kind ↦
        let (target, at', kind', deep, rest) = link_step fuel depth fs i j inode at kind h in
        let (n, le', c) = follow_loop_sound fuel (depth + 1) fs inode.word0 j deep rest in
        (suc n, omega arith, (inode, target, at, kind, at', kind', c))
  ]
]

-- follow_symlink returns inode `j` exactly if a chain of at most 10 links, each to an allocated
-- inode, leads from the given inode to `j`, which is then no symbolic link.
pub follow_symlink_iff :
    (fs : Fs) (i j : ℕ)
    → (follow_symlink fs i ≡ ok (some j))
      ↔ ((n : ℕ) × (n ≤ symlink_recursion_limit) × Chain fs n i j)
unfolding follow_symlink
follow_symlink_iff fs i j = (
  (λ h. let (n, le, c) = follow_loop_sound 12 0 fs i j (omega arith) h in (n, omega arith, c)),
  (λ (n, le, c). follow_loop_complete n 12 0 fs i j c (omega arith) (omega arith)),
)

-- Every link in the table points into the table.
abbrev pub LinksInside : Fs → Type 0
LinksInside fs =
    (i : ℕ) (inode : Inode)
    → get_elem? fs.inodes i ≡ some inode
    → same_type inode.file_type symlink ≡ true
    → inode.word0 < length fs.inodes

follow_loop_total :
    (fuel depth : ℕ) (fs : Fs) (i : ℕ)
    → LinksInside fs
    → i < length fs.inodes
    → symlink_recursion_limit + 1 < fuel + depth
    → depth ≤ symlink_recursion_limit
    → (r : Option ℕ) × (follow_loop fuel fs depth i ≡ ok r)
unfolding follow_loop
follow_loop_total zero depth fs i inside lt enough le = absurd (omega arith)
follow_loop_total (suc fuel) depth fs i inside lt enough le =
    let (inode, at) = get_elem?_total fs.inodes i lt in
    elim (Bool-cases (same_type inode.file_type symlink)) [
      | inr kind ↦ (some i, ground arith)
      | inl kind ↦
          let (target, at') = get_elem?_total fs.inodes inode.word0 (inside i inode at kind) in
          elim (Bool-cases (same_type target.file_type unallocated)) [
            | inl gone ↦ (none, ground arith)
            | inr there ↦ elim (Bool-cases (ltb symlink_recursion_limit (depth + 1))) [
              | inl deep ↦ (none, ground arith)
              | inr room ↦
                  let (r, run) =
                    follow_loop_total fuel (depth + 1) fs inode.word0 inside
                      (inside i inode at kind) (omega arith) (ground arith) in
                  (r, ground arith)
            ]
          ]
    ]

-- Where every link points into the table, follow_symlink terminates without a fault, cycles of
-- links included, and what it returns is no symbolic link.
pub follow_symlink_total :
    (fs : Fs) (i : ℕ)
    → LinksInside fs
    → i < length fs.inodes
    → (r : Option ℕ) × (follow_symlink fs i ≡ ok r)
      × ((j : ℕ)
          → r ≡ some j
          → (inode : Inode) × (get_elem? fs.inodes j ≡ some inode)
            × (same_type inode.file_type symlink ≡ false))
follow_symlink_total fs i inside lt =
    let (r, run) = follow_loop_total 12 0 fs i inside lt (omega arith) (omega arith) in
    (
      r,
      unfold follow_symlink in run,
      λ j e.
          let (n, le, c) = (follow_symlink_iff fs i j).0 (unfold follow_symlink in cc (run, e)) in
          chain_end n fs i j c,
    )
  where
    chain_end :
        (n : ℕ) (fs : Fs) (i j : ℕ)
        → Chain fs n i j
        → (inode : Inode) × (get_elem? fs.inodes j ≡ some inode)
          × (same_type inode.file_type symlink ≡ false)
    chain_end zero fs i j (inode, at, kind, same) =
        (inode, subst (λ k. get_elem? fs.inodes k ≡ some inode) same at, kind)
    chain_end (suc n) fs i j (inode, target, at, kind, at', kind', c) =
        chain_end n fs inode.word0 j c
