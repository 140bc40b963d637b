-- ===== src/Fs/Inodes/References.antt =====
-- What acquire_inode, release_inode and free_inode of kernel/src/fs.c do to each inode of the table.
use foxtail.Common.{
  ℕ, zero, suc, ◌+◌, ◌/◌, ◌%◌, ◌≡◌, ◌≢◌, refl, sym, ◌∙◌, subst, inl, inr, Bool, some, arith,
  get_elem?, set, get_elem?-set_self, get_elem?-set_ne, get_elem?-lt, Bool-cases, Option-cases,
  ◌==◌, ◌&&◌, if◌then◌else◌, ok, ◌>>=◌, >>=-eq-ok,
}
use foxtail.Fs.Defs.{Fs, Inode, file, unallocated, same_type, put_inode, slot_at}
use foxtail.Fs.Blocks.{free_block}
use foxtail.Fs.Inodes.{free_blocks, blocks_of, free_inode, acquire_inode, release_inode}

-- An inode of the new table stands for the one of the old table at its index, with `n` references
-- at index `t` and its own elsewhere, and the same name, parent and validity.
pub record Counts (fs : Fs) (t : ℕ) (change : ℕ → ℕ) (i : ℕ) (inode' : Inode) : Type 0 where
  pub old : Inode
  pub at : get_elem? fs.inodes i ≡ some old
  pub refs : inode'.num_refs ≡ (if i == t then change old.num_refs else old.num_refs)
  pub name : inode'.name ≡ old.name
  pub parent : inode'.parent ≡ old.parent

module _ (fs : Fs) (t : ℕ) (inode new : Inode) (change : ℕ → ℕ) where
  put_inode-Counts :
      get_elem? fs.inodes t ≡ some inode
      → new.num_refs ≡ change inode.num_refs
      → new.name ≡ inode.name
      → new.parent ≡ inode.parent
      → (i : ℕ) (inode' : Inode) → get_elem? (set fs.inodes t new) i ≡ some inode'
      → Counts fs t change i inode'
  put_inode-Counts at refs name parent i inode' e = elim (Bool-cases (i == t)) [
    | inl same ↦
        let here : i ≡ t = ground arith in
        let it : new ≡ inode' =
          ground (arith, get_elem?-set_self fs.inodes t new (get_elem?-lt fs.inodes t at)) in
        record {
          old = inode;
          at = rw here at;
          refs = rw same (ground arith);
          name = ground arith;
          parent = ground arith;
        }
    | inr other ↦
        let away : t ≢ i = ground arith in
        record {
          old = inode';
          at = sym (get_elem?-set_ne fs.inodes new away) ∙ e;
          refs = rw other;
          name = refl;
          parent = refl;
        }
  ]

pub acquire_inode-Counts :
    (fs fs' : Fs) (t : ℕ)
    → acquire_inode fs t ≡ ok fs'
    → (i : ℕ) (inode' : Inode) → get_elem? fs'.inodes i ≡ some inode'
    → Counts fs t (λ n. (n + 1) % 65536) i inode'
unfolding acquire_inode
acquire_inode-Counts fs fs' t run i inode' e = elim (Option-cases (get_elem? fs.inodes t)) [
  | inl missing ↦ absurd (ground arith)
  | inr (inode, at) ↦
      let new = record inode { num_refs = (inode.num_refs + 1) % 65536 } in
      let written : set fs.inodes t new ≡ fs'.inodes = ground arith in
      put_inode-Counts fs t inode new (λ n. (n + 1) % 65536) at refl refl refl i inode'
        (subst (λ l. get_elem? l i ≡ some inode') (sym written) e)
]

free_block-inodes :
    (fs : Fs) (b : ℕ) (r : Bool × Fs) → free_block fs b ≡ ok r → r.1.inodes ≡ fs.inodes
unfolding free_block
free_block-inodes fs b r run = elim (Option-cases (get_elem? fs.bitmap (b / 8))) [
  | inl missing ↦ absurd (ground arith)
  | inr (byte, at) ↦ ground arith
]

free_blocks-inodes :
    (n i : ℕ) (inode : Inode) (fs fs' : Fs)
    → free_blocks n i inode fs ≡ ok fs'
    → fs'.inodes ≡ fs.inodes
unfolding free_blocks
free_blocks-inodes zero i inode fs fs' run = ground arith
free_blocks-inodes (suc n) i inode fs fs' run =
    let (b, at, rest) = >>=-eq-ok (slot_at inode i) _ run in
    let (r, freed, rest') = >>=-eq-ok (free_block fs b) _ rest in
    free_blocks-inodes n (i + 1) inode r.1 fs' rest' ∙ free_block-inodes fs b r freed

-- Freeing an inode only changes its type in the table.
pub free_inode-inodes :
    (fs fs' : Fs) (t : ℕ) (inode : Inode)
    → get_elem? fs.inodes t ≡ some inode
    → free_inode fs t ≡ ok fs'
    → fs'.inodes ≡ set fs.inodes t (record inode { file_type = unallocated })
unfolding free_inode
free_inode-inodes fs fs' t inode at run = elim (Bool-cases (same_type inode.file_type file)) [
  | inl is ↦
      let body : (free_blocks (blocks_of inode.word0) 0 inode fs >>= λ fs1.
      ok (put_inode fs1 t (record inode { file_type = unallocated })))
          ≡ ok fs' =
        ground arith in
      let (fs1, freed, last) = >>=-eq-ok (free_blocks (blocks_of inode.word0) 0 inode fs) _ body in
      let kept = free_blocks-inodes (blocks_of inode.word0) 0 inode fs fs1 freed in ground arith
  | inr other ↦ ground arith
]

pub release_inode-Counts :
    (fs fs' : Fs) (t : ℕ)
    → release_inode fs t ≡ ok fs'
    → (i : ℕ) (inode' : Inode) → get_elem? fs'.inodes i ≡ some inode'
    → Counts fs t (λ n. (n + 65535) % 65536) i inode'
unfolding release_inode
release_inode-Counts fs fs' t run i inode' e = elim (Option-cases (get_elem? fs.inodes t)) [
  | inl missing ↦ absurd (ground arith)
  | inr (inode, at) ↦
      let change : ℕ → ℕ = λ n. (n + 65535) % 65536 in
      let new = record inode { num_refs = (inode.num_refs + 65535) % 65536 } in
      let fs1 = put_inode fs t new in
      let here = get_elem?-set_self fs.inodes t new (get_elem?-lt fs.inodes t at) in
      elim (Bool-cases (inode.valid == 0 && new.num_refs == 0)) [
        | inl dead ↦
            let freed : free_inode fs1 t ≡ ok fs' = ground arith in
            let table = free_inode-inodes fs1 fs' t new here freed in
            let gone = record new { file_type = unallocated } in
            let step =
              put_inode-Counts fs1 t new gone (λ n. n) here refl refl refl i inode'
                (subst (λ l. get_elem? l i ≡ some inode') table e) in
            let first =
              put_inode-Counts fs t inode new change at refl refl refl i step.old step.at in
            record {
              old = first.old;
              at = first.at;
              refs = ground (arith, step.refs, first.refs);
              name = step.name ∙ first.name;
              parent = step.parent ∙ first.parent;
            }
        | inr alive ↦
            let written : fs1.inodes ≡ fs'.inodes = ground arith in
            put_inode-Counts fs t inode new change at refl refl refl i inode'
              (subst (λ l. get_elem? l i ≡ some inode') (sym written) e)
      ]
]
