-- ===== src/Fs/Inodes/Freeing.antt =====
-- release_inode, free_inode and free_block of kernel/src/fs.c: what closing a deleted inode leaves.
use foxtail.Common.{
  ℕ, zero, suc, ◌+◌, ◌*◌, ◌/◌, ◌%◌, ◌≤◌, ◌<◌, ◌≡◌, refl, ap, ◌∙◌, Bool, true, false, some, arith,
  length, get_elem?, get_elem?-lt, get_elem?_total, get_elem?-set_self, length-set, set, Bool-cases,
  inl, inr, Outcome, ok, ◌>>=◌,
}
use foxtail.Common.Bits.{test_bit, clear_bit}
use foxtail.Fs.Defs.{Fs, Inode, unallocated, file, same_type, put_inode}
use foxtail.Fs.Blocks.{free_block}
use foxtail.Fs.Inodes.{free_blocks, blocks_of, free_inode, release_inode}

-- The blocks of a file are among its slots, and their bits in the bitmap.
pub record IsFreeable (fs : Fs) (inode : Inode) : Type 0 where
  pub blocks : same_type inode.file_type file ≡ true → blocks_of inode.word0 ≤ length inode.slots
  pub bits :
      (j b : ℕ)
      → same_type inode.file_type file ≡ true
      → get_elem? inode.slots j ≡ some b
      → b < length fs.bitmap * 8

free_block_total :
    (fs : Fs) (b : ℕ)
    → b < length fs.bitmap * 8
    → (r : Bool × Fs) × (free_block fs b ≡ ok r)
      × (r.1.inodes ≡ fs.inodes)
      × (length r.1.bitmap ≡ length fs.bitmap)
unfolding free_block
free_block_total fs b lt =
    let (w, there) = get_elem?_total fs.bitmap (b / 8) (omega arith) in
    elim (Bool-cases (test_bit w (b % 8))) [
      | inl kept ↦ ((false, fs), ground arith, refl, refl)
      | inr freed ↦ (
        (true, record fs { bitmap = set fs.bitmap (b / 8) (clear_bit w (b % 8)) }),
        ground arith,
        refl,
        length-set fs.bitmap (b / 8) (clear_bit w (b % 8)),
      )
    ]

free_blocks_total :
    (rounds i : ℕ) (inode : Inode) (fs : Fs)
    → i + rounds ≤ length inode.slots
    → ((j b : ℕ) → get_elem? inode.slots j ≡ some b → b < length fs.bitmap * 8)
    → (fs' : Fs) × (free_blocks rounds i inode fs ≡ ok fs') × (fs'.inodes ≡ fs.inodes)
unfolding free_blocks
free_blocks_total zero i inode fs le bits = (fs, refl, refl)
free_blocks_total (suc rounds) i inode fs le bits =
    let (b, there) = get_elem?_total inode.slots i (omega arith) in
    let (r, run, same, size) = free_block_total fs b (bits i b there) in
    let (fs', rest, same') =
      free_blocks_total rounds (i + 1) inode r.1 (omega arith)
        (λ j c at. omega (arith, size, bits j c at)) in
    (fs', ground (arith, there, run, rest), same' ∙ same)

free_inode_total :
    (fs : Fs) (idx : ℕ) (inode : Inode)
    → get_elem? fs.inodes idx ≡ some inode
    → IsFreeable fs inode
    → (fs' : Fs) × (free_inode fs idx ≡ ok fs')
      × (get_elem? fs'.inodes idx ≡ some (record inode { file_type = unallocated }))
unfolding free_inode
free_inode_total fs idx inode at ok_blocks = elim (Bool-cases (same_type inode.file_type file)) [
  | inl data_file ↦
      let (fs1, run, same) =
        free_blocks_total (blocks_of inode.word0) 0 inode fs
          (omega (arith, ok_blocks.blocks data_file))
          (λ j b there. ok_blocks.bits j b data_file there) in
      (
        put_inode fs1 idx (record inode { file_type = unallocated }),
        ground arith,
        get_elem?-set_self fs1.inodes idx (record inode { file_type = unallocated })
            (omega (arith, ap length same, get_elem?-lt fs.inodes idx at)),
      )
  | inr other ↦ (
    put_inode fs idx (record inode { file_type = unallocated }),
    ground arith,
    get_elem?-set_self fs.inodes idx (record inode { file_type = unallocated })
        (get_elem?-lt fs.inodes idx at),
  )
]

-- A release that is not the last one only counts down.
release_kept :
    (fs : Fs) (idx m : ℕ) (inode : Inode)
    → get_elem? fs.inodes idx ≡ some inode
    → inode.num_refs ≡ suc (suc m)
    → suc m < 65536
    → release_inode fs idx ≡ ok (put_inode fs idx (record inode { num_refs = suc m }))
unfolding release_inode
release_kept fs idx m inode at refs lt =
    let count : (inode.num_refs + 65535) % 65536 ≡ suc m = omega (arith, refs) in
    ground (arith, count)

-- `m` releases one after another.
unfoldable pub releases : ℕ → Fs → ℕ → Outcome Fs
unfolding release_inode
releases zero fs idx = ok fs
releases (suc m) fs idx = release_inode fs idx >>= λ fs'. releases m fs' idx

-- Of `m + 1` references, `m` are released and the inode stays as it is.
pub releases_lem :
    (m : ℕ) (fs : Fs) (idx : ℕ) (inode : Inode)
    → get_elem? fs.inodes idx ≡ some inode
    → inode.num_refs ≡ suc m
    → suc m < 65536
    → (fs' : Fs) × (releases m fs idx ≡ ok fs')
      × (get_elem? fs'.inodes idx ≡ some (record inode { num_refs = 1 }))
      × (fs'.bitmap ≡ fs.bitmap)
unfolding releases
releases_lem zero fs idx inode at refs lt =
    (fs, refl, at ∙ ap (λ n. some (record inode { num_refs = n })) refs, refl)
releases_lem (suc m) fs idx inode at refs lt =
    let fs1 = put_inode fs idx (record inode { num_refs = suc m }) in
    let (fs', rest, kept, bits) =
      releases_lem m fs1 idx (record inode { num_refs = suc m })
        (get_elem?-set_self fs.inodes idx (record inode { num_refs = suc m })
          (get_elem?-lt fs.inodes idx at))
        refl (omega arith) in
    (
      fs',
      ap (λ r. r >>= λ f. releases m f idx) (release_kept fs idx m inode at refs (omega arith))
          ∙ rest,
      kept,
      bits,
    )

-- The last release of an inode that is not valid any more frees it.
pub release_inode_last :
    (fs : Fs) (idx : ℕ) (inode : Inode)
    → get_elem? fs.inodes idx ≡ some inode
    → inode.num_refs ≡ 1
    → inode.valid ≡ 0
    → IsFreeable fs inode
    → (fs' : Fs) × (release_inode fs idx ≡ ok fs')
      × (get_elem? fs'.inodes idx ≡ some (record inode { num_refs = 0; file_type = unallocated }))
unfolding release_inode
release_inode_last fs idx inode at refs gone freeable =
    let fs1 = put_inode fs idx (record inode { num_refs = 0 }) in
    let (fs', run, free) =
      free_inode_total fs1 idx (record inode { num_refs = 0 })
        (get_elem?-set_self fs.inodes idx (record inode { num_refs = 0 })
          (get_elem?-lt fs.inodes idx at))
        (record { blocks = freeable.blocks; bits = freeable.bits }) in
    let count : (inode.num_refs + 65535) % 65536 ≡ 0 = omega (arith, refs) in
    (fs', ground (arith, count, gone, run), free)
