-- ===== src/Fs/Bytes/Copy.antt =====
-- One memcpy of fs_move_bytes in kernel/src/fs.c against the contents of the file.
use mathlib.Core.Path.{ap₂}
use foxtail.Common.{
  ℕ, zero, suc, ◌+◌, ◌-◌, ◌*◌, ◌/◌, ◌%◌, ◌≤◌, ◌<◌, ◌≡◌, ◌⊎◌, refl, sym, ap, ◌∙◌, inl, inr, true,
  get_elem?_total, get_or, get_or_of_get_elem?, length, min, Mem, store, add-zero, ok, ltb, arith,
  Bool-cases,
}
use foxtail.Fs.Defs.{Fs, Inode, ndirect, block_size, num_blocks}
use foxtail.Fs.Bytes.{
  first_data_block, file_max_size, copy_between, get_block_from_inode_offset, move_block,
}

-- The block that holds byte `i` of the file, and that byte.
abbrev pub block_of : Inode → ℕ → ℕ
block_of inode i = get_or inode.slots (i / block_size) 0

abbrev pub content : Fs → Inode → ℕ → ℕ
content fs inode i = fs.disk (block_of inode i * block_size + i % block_size)

-- A file of at most 21 blocks, each of them a data block.
pub record IsStored (inode : Inode) : Type 0 where
  pub slots : length inode.slots ≡ ndirect
  pub size : inode.word0 ≤ file_max_size
  pub inside :
      (i : ℕ)
      → i < inode.word0
      → (first_data_block ≤ block_of inode i) × (block_of inode i < num_blocks)

pub copy_between_outside :
    (n : ℕ) (m' : Mem) (dst : ℕ) (m : Mem) (src q : ℕ)
    → (q < dst) ⊎ (dst + n ≤ q)
    → copy_between n m' dst m src q ≡ m' q
unfolding copy_between
copy_between_outside zero m' dst m src q h = refl
copy_between_outside (suc n) m' dst m src q h =
    ground (arith, copy_between_outside n (store m' dst (m src)) (dst + 1) m (src + 1) q)

pub copy_between_inside :
    (n : ℕ) (m' : Mem) (dst : ℕ) (m : Mem) (src i : ℕ)
    → i < n
    → copy_between n m' dst m src (dst + i) ≡ m (src + i)
unfolding copy_between
copy_between_inside zero m' dst m src i lt = elim lt [ ]
copy_between_inside (suc n) m' dst m src zero lt =
    rw
      (
        add-zero,
        add-zero,
        copy_between_outside n (store m' dst (m src)) (dst + 1) m (src + 1) dst (inl (omega arith)),
      )
      (here dst)
  where
    here : (dst : ℕ) → store m' dst (m src) dst ≡ m src
    here dst = ground arith
copy_between_inside (suc n) m' dst m src (suc i) lt =
    ap (copy_between n (store m' dst (m src)) (dst + 1) m (src + 1)) (along dst)
    ∙ copy_between_inside n (store m' dst (m src)) (dst + 1) m (src + 1) i (omega arith)
    ∙ ap m (sym (along src))
  where
    along : (p : ℕ) → p + suc i ≡ p + 1 + i
    along p = omega arith

-- What a read of `n` bytes of the file from `offset` on has put at `p`, and nothing before or behind.
pub record Filled (fs : Fs) (inode : Inode) (offset n p : ℕ) (user user' : Mem) : Type 0 where
  pub bytes : (j : ℕ) → j < n → user' (p + j) ≡ content fs inode (offset + j)
  pub others : (q : ℕ) → (q < p) ⊎ (p + n ≤ q) → user' q ≡ user q

-- One block: the bytes of the file from `offset` on, up to the block's end at most.
move_block-Filled :
    (fs : Fs) (inode : Inode) (user : Mem) (offset n p : ℕ)
    → IsStored inode
    → offset + n ≤ inode.word0
    → offset % block_size + n ≤ block_size
    → (user' : Mem) × (move_block true n (block_of inode offset) (offset % block_size) fs user p
        ≡ ok (fs, user'))
      × Filled fs inode offset n p user user'
unfolding move_block
move_block-Filled fs inode user offset zero p v le fits =
    (user, refl, record { bytes = λ j lt. elim lt [ ]; others = λ q lt. refl })
move_block-Filled fs inode user offset (suc n) p v le fits =
    let (low, high) = v.inside offset (omega arith) in
    let src = block_of inode offset * block_size + offset % block_size in
    (
      copy_between (suc n) user p fs.disk src,
      ground arith,
      record {
        bytes =
            λ j lt. copy_between_inside (suc n) user p fs.disk src j lt ∙ ap fs.disk (same j lt);
        others = copy_between_outside (suc n) user p fs.disk src;
      },
    )
  where
    same :
        (j : ℕ)
        → j < suc n
        → block_of inode offset * block_size + offset % block_size + j
          ≡ block_of inode (offset + j) * block_size + (offset + j) % block_size
    same j lt =
        let block : offset / block_size ≡ (offset + j) / block_size = omega arith in
        let b : block_of inode offset ≡ block_of inode (offset + j) =
          ap (λ k. get_or inode.slots k 0) block in
        omega arith

pub Filled-append :
    (fs : Fs) (inode : Inode) (offset n m p : ℕ) (user u1 u2 : Mem)
    → Filled fs inode offset n p user u1
    → Filled fs inode (offset + n) m (p + n) u1 u2
    → Filled fs inode offset (n + m) p user u2
Filled-append fs inode offset n m p user u1 u2 f g = record { bytes = bytes; others = others }
  where
    along : (a j : ℕ) → n ≤ j → a + j ≡ a + n + (j - n)
    along a j le = omega arith

    others : (q : ℕ) → (q < p) ⊎ (p + (n + m) ≤ q) → u2 q ≡ user q
    others q (inl before) = g.others q (inl (omega arith)) ∙ f.others q (inl before)
    others q (inr after) = g.others q (inr (omega arith)) ∙ f.others q (inr (omega arith))

    bytes : (j : ℕ) → j < n + m → u2 (p + j) ≡ content fs inode (offset + j)
    bytes j lt = elim (Bool-cases (ltb j n)) [
      | inl first ↦
          let before : j < n = ground arith in
          g.others (p + j) (inl (omega arith)) ∙ f.bytes j before
      | inr second ↦
          let behind : n ≤ j = ground arith in
          ap u2 (along p j behind)
          ∙ g.bytes (j - n) (omega arith)
          ∙ ap (content fs inode) (sym (along offset j behind))
    ]

-- Where the file has a byte, the block is the one that holds it.
pub get_block_lem :
    (inode : Inode) (offset : ℕ)
    → IsStored inode
    → (block : ℕ) × (get_block_from_inode_offset inode offset ≡ ok block)
      × (offset < inode.word0 → block ≡ block_of inode offset)
unfolding get_block_from_inode_offset
get_block_lem inode offset v = elim (Bool-cases (ltb (offset / block_size) ndirect)) [
  | inl direct ↦
      let (b, at) = get_elem?_total inode.slots (offset / block_size) (ground (arith, v.slots)) in
      (b, ground arith, (λ lt. sym (get_or_of_get_elem? inode.slots (offset / block_size) 0 at)))
  | inr behind ↦ (0, rw behind, (λ lt. absurd (ground (arith, v.size))))
]

-- One block of a read, whatever the place in a block is when nothing is moved.
pub read_block :
    (fs : Fs) (inode : Inode) (user : Mem) (offset n at p block : ℕ)
    → IsStored inode
    → offset + n ≤ inode.word0
    → offset % block_size + n ≤ block_size
    → (offset < inode.word0 → block ≡ block_of inode offset)
    → (0 < n → at ≡ offset % block_size)
    → (user' : Mem) × (move_block true n block at fs user p ≡ ok (fs, user'))
      × Filled fs inode offset n p user user'
unfolding move_block
read_block fs inode user offset zero at p block v le fits is place =
    (user, refl, record { bytes = λ j lt. elim lt [ ]; others = λ q lt. refl })
read_block fs inode user offset (suc n) at p block v le fits is place =
    let (user', run, f) = move_block-Filled fs inode user offset (suc n) p v le fits in
    (
      user',
      ap₂ (λ b a. move_block true (suc n) b a fs user p) (is (omega arith)) (place (omega arith))
          ∙ run,
      f,
    )

-- The bytes that are left to read.
abbrev pub left : Inode → ℕ → ℕ → ℕ
left inode offset size = min size (inode.word0 - offset)
