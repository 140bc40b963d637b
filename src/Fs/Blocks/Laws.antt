-- ===== src/Fs/Blocks/Laws.antt =====
-- What alloc_block and free_block of kernel/src/fs.c do to the block bitmap.
use foxtail.Common.{
  ℕ, zero, suc, ◌+◌, ◌*◌, ◌/◌, ◌%◌, ◌≤◌, ◌<◌, ◌≡◌, ◌≢◌, refl, ap, ◌∙◌, inl, inr, Bool, true, false,
  not, some, arith, length, get_elem?, get_or, set, get_or_of_get_elem?, get_elem?_total,
  get_elem?-lt, get_or-set_self, get_or-set_ne, set_same, Bool-cases, ◌==◌, if◌then◌else◌, ok,
}
use foxtail.Common.Bits.{
  test_bit, set_bit, clear_bit_clear, test_bit-set_bit_self, test_bit-set_bit_ne,
}
use foxtail.Fs.Defs.{Fs, num_blocks}
use foxtail.Fs.Blocks.{alloc_block_loop, alloc_block, free_block}

-- The block's bit is set in the bitmap.
abbrev pub is_used : Fs → ℕ → Bool
is_used fs i = test_bit (get_or fs.bitmap (i / 8) 0) (i % 8)

-- free_block never frees: whether it reports success or failure, the file system is as it was, so a
-- block whose bit is set stays used.
pub free_block_lem :
    (fs : Fs) (idx : ℕ)
    → idx / 8 < length fs.bitmap
    → free_block fs idx ≡ ok (not (is_used fs idx), fs)
unfolding free_block
free_block_lem fs idx lt =
    let (b, at) = get_elem?_total fs.bitmap (idx / 8) lt in
    ground (
      arith,
      get_or_of_get_elem? fs.bitmap (idx / 8) 0 at,
      clear_bit_clear b (idx % 8),
      set_same fs.bitmap (idx / 8) at,
    )

-- The bitmap after bit `i % 8` of byte `i / 8`, which was `b`, is set.
used_set :
    (fs : Fs) (i b j : ℕ)
    → get_elem? fs.bitmap (i / 8) ≡ some b
    → is_used (record fs { bitmap = set fs.bitmap (i / 8) (set_bit b (i % 8)) }) j
      ≡ (if i == j then true else is_used fs j)
used_set fs i b j at = elim (Bool-cases (i == j)) [
  | inl e ↦
      let same : i ≡ j = ground arith in
      rw
        (
          e,
          ← same,
          get_or-set_self fs.bitmap (i / 8) (set_bit b (i % 8)) 0
              (get_elem?-lt fs.bitmap (i / 8) at),
        )
        (test_bit-set_bit_self b (i % 8))
  | inr ne ↦ elim (Bool-cases (i / 8 == j / 8)) [
    | inl e ↦
        let byte : j / 8 ≡ i / 8 = ground arith in
        let bit : i % 8 ≢ j % 8 = ground arith in
        rw
          (
            ne,
            byte,
            get_or-set_self fs.bitmap (i / 8) (set_bit b (i % 8)) 0
                (get_elem?-lt fs.bitmap (i / 8) at),
            get_or_of_get_elem? fs.bitmap (i / 8) 0 at,
          )
          (test_bit-set_bit_ne b (i % 8) (j % 8) bit)
    | inr e ↦
        let byte : i / 8 ≢ j / 8 = ground arith in
        rw ne (ap (λ x. test_bit x (j % 8)) (get_or-set_ne fs.bitmap (set_bit b (i % 8)) 0 byte))
  ]
]

-- What alloc_block has done when it returns `r` and `fs'`, after a search from block `i`.
pub data AllocBlock (fs : Fs) (i : ℕ) (r : ℕ) (fs' : Fs) : Type 0 where
  found :
      r < num_blocks
      → is_used fs r ≡ false
      → ((j : ℕ) → i ≤ j → j < r → is_used fs j ≡ true)
      → ((j : ℕ) → is_used fs' j ≡ (if r == j then true else is_used fs j))
      → fs'.inodes ≡ fs.inodes
      → AllocBlock fs i r fs'
  full :
      r ≡ 4294967295
      → fs' ≡ fs
      → ((j : ℕ) → i ≤ j → j < num_blocks → is_used fs j ≡ true)
      → AllocBlock fs i r fs'

alloc_block_loop_lem :
    (rounds i : ℕ) (fs : Fs)
    → i + rounds ≡ num_blocks
    → num_blocks ≤ 8 * length fs.bitmap
    → (r : ℕ) × (fs' : Fs) × (alloc_block_loop rounds i fs ≡ ok (r, fs')) × AllocBlock fs i r fs'
unfolding alloc_block_loop
alloc_block_loop_lem zero i fs sum size =
    (4294967295, fs, refl, AllocBlock.full refl refl (λ j ge lt. absurd (omega arith)))
alloc_block_loop_lem (suc rounds) i fs sum size =
    let (b, at) = get_elem?_total fs.bitmap (i / 8) (omega arith) in
    let used : is_used fs i ≡ test_bit b (i % 8) =
      ap (λ x. test_bit x (i % 8)) (get_or_of_get_elem? fs.bitmap (i / 8) 0 at) in
    elim (Bool-cases (test_bit b (i % 8))) [
      | inl t ↦
          let (r, fs', run, post) = alloc_block_loop_lem rounds (i + 1) fs (omega arith) size in
          (r, fs', ground arith, widen fs i r fs' (used ∙ t) post)
      | inr f ↦ (
        i,
        record fs { bitmap = set fs.bitmap (i / 8) (set_bit b (i % 8)) },
        ground arith,
        AllocBlock.found (omega arith) (used ∙ f) (λ j ge lt. absurd (omega arith))
            (λ j. used_set fs i b j at) refl,
      )
    ]
  where
    at_or_above :
        (fs : Fs) (i j : ℕ)
        → is_used fs i ≡ true
        → i ≤ j
        → (i + 1 ≤ j → is_used fs j ≡ true)
        → is_used fs j ≡ true
    at_or_above fs i j u ge h = elim (Bool-cases (i == j)) [
      | inl e ↦ let same : j ≡ i = ground arith in rw same u
      | inr e ↦ h (ground arith)
    ]

    widen :
        (fs : Fs) (i r : ℕ) (fs' : Fs)
        → is_used fs i ≡ true
        → AllocBlock fs (i + 1) r fs'
        → AllocBlock fs i r fs'
    widen fs i r fs' u (AllocBlock.found lt free before now same) =
        AllocBlock.found lt free (λ j ge lt'. at_or_above fs i j u ge (λ g. before j g lt')) now
          same
    widen fs i r fs' u (AllocBlock.full e same all) =
        AllocBlock.full e same (λ j ge lt'. at_or_above fs i j u ge (λ g. all j g lt'))

-- alloc_block on a bitmap of its size returns either the first unused block, whose bit alone it
-- sets, leaving the inodes alone, or -1 with nothing changed, and the latter only if every block is
-- used.
pub alloc_block_lem :
    (fs : Fs)
    → num_blocks ≤ 8 * length fs.bitmap
    → (r : ℕ) × (fs' : Fs) × (alloc_block fs ≡ ok (r, fs')) × AllocBlock fs 0 r fs'
unfolding alloc_block
alloc_block_lem fs size = alloc_block_loop_lem num_blocks 0 fs (omega arith) size
