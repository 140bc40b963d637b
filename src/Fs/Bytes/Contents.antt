-- ===== src/Fs/Bytes/Contents.antt =====
-- fs_read_bytes of kernel/src/fs.c against the contents of the file.
use foxtail.Fs.Links.{follow_symlink}
use foxtail.Common.{
  ℕ, zero, suc, ◌+◌, ◌-◌, ◌*◌, ◌/◌, ◌%◌, ◌≤◌, ◌<◌, ◌≡◌, ◌⊎◌, refl, ap, ◌∙◌, subst, inl, inr, true,
  false, some, get_elem?, min, Mem, ok, ltb, leb, arith, Bool-cases,
}
use foxtail.Fs.Defs.{Fs, Inode, block_size}
use foxtail.Fs.Bytes.{
  sub32, get_block_from_inode_offset, move_block, move_rest, move_bytes, fs_read_bytes,
}
use foxtail.Fs.Bytes.Copy.{
  content, IsStored, left, Filled-append, get_block_lem, read_block, Filled,
}

-- What one round moves.
abbrev round_size : Inode → ℕ → ℕ → ℕ
round_size inode offset size = min (min size block_size) (sub32 inode.word0 offset)

last_round :
    (fuel : ℕ) (fs : Fs) (inode : Inode) (user user' : Mem)
    (size offset buf buf_offset total block : ℕ)
    → get_block_from_inode_offset inode offset ≡ ok block
    → move_block true (round_size inode offset size) block 0 fs user (buf + buf_offset)
      ≡ ok (fs, user')
    → size < block_size
    → move_rest (suc fuel) true inode buf size offset buf_offset total fs user
      ≡ ok ((total + round_size inode offset size) % 4294967296, fs, user')
unfolding move_rest
last_round fuel fs inode user user' size offset buf buf_offset total block found run last =
    let ends : ltb size block_size ≡ true = ground arith in rw (found, run, ends)

next_round :
    (fuel : ℕ) (fs : Fs) (inode : Inode) (user user' : Mem)
    (size offset buf buf_offset total block : ℕ)
    → get_block_from_inode_offset inode offset ≡ ok block
    → move_block true (round_size inode offset size) block 0 fs user (buf + buf_offset)
      ≡ ok (fs, user')
    → block_size ≤ size
    → offset + round_size inode offset size < 4294967296
    → buf_offset + round_size inode offset size < 4294967296
    → total + round_size inode offset size < 4294967296
    → let n = round_size inode offset size in
      move_rest (suc fuel) true inode buf size offset buf_offset total fs user
      ≡ move_rest fuel true inode buf
          (size - block_size)
          (offset + n)
          (buf_offset + n)
          (total + n)
          fs
          user'
unfolding move_rest
next_round fuel fs inode user user' size offset buf buf_offset total block found run more lt lt'
      lt'' =
    let goes_on : ltb size block_size ≡ false = ground arith in
    rw (found, run, goes_on, small lt, small lt', small lt'')
  where
    small : {a : ℕ} → a < 4294967296 → a % 4294967296 ≡ a
    small lt = omega arith

-- Behind a whole block the next round begins at a block, or there is nothing left.
still_aligned :
    (size offset w n : ℕ)
    → offset ≤ w
    → block_size ≤ size
    → (offset % block_size ≡ 0) ⊎ (min size (w - offset) ≡ 0)
    → n ≡ min block_size (w - offset)
    → ((offset + n) % block_size ≡ 0) ⊎ (min (size - block_size) (w - (offset + n)) ≡ 0)
still_aligned size offset w n le more (inr done) is = inr (omega arith)
still_aligned size offset w n le more (inl aligned) is =
    elim (Bool-cases (leb (offset + block_size) w)) [
      | inl whole ↦ let fits : offset + block_size ≤ w = ground arith in inl (omega arith)
      | inr part ↦ let short : w < offset + block_size = ground arith in inr (omega arith)
    ]

move_rest-Filled :
    (fuel : ℕ) (fs : Fs) (inode : Inode) (user : Mem) (size offset buf buf_offset total : ℕ)
    → IsStored inode
    → offset ≤ inode.word0
    → (offset % block_size ≡ 0) ⊎ (left inode offset size ≡ 0)
    → size < fuel * block_size
    → total + size < 4294967296
    → buf_offset + size < 4294967296
    → (user' : Mem) × (move_rest fuel true inode buf size offset buf_offset total fs user
        ≡ ok (total + left inode offset size, fs, user'))
      × Filled fs inode offset (left inode offset size) (buf + buf_offset) user user'
move_rest-Filled zero fs inode user size offset buf buf_offset total v le aligned enough small
      small' =
    absurd (omega arith)
move_rest-Filled (suc fuel) fs inode user size offset buf buf_offset total v le aligned enough small
      small' =
    let n = round_size inode offset size in
    let (block, found, is) = get_block_lem inode offset v in
    let (u1, run, f) =
      read_block fs inode user offset n 0 (buf + buf_offset) block v (omega (arith, v.size))
        (omega (arith, v.size)) is (λ some_left. omega (arith, v.size)) in
    elim (Bool-cases (ltb size block_size)) [
      | inl ends ↦
          let last : size < block_size = ground arith in
          let all : n ≡ left inode offset size = omega (arith, v.size) in
          (
            u1,
            last_round fuel fs inode user u1 size offset buf buf_offset total block found run last
                ∙ ap (λ count. ok (count, fs, u1)) (omega (arith, v.size)),
            subst (λ k. Filled fs inode offset k (buf + buf_offset) user u1) all f,
          )
      | inr goes_on ↦
          let more : block_size ≤ size = ground arith in
          let (u2, rest, g) =
            move_rest-Filled fuel fs inode u1 (size - block_size) (offset + n) buf (buf_offset + n)
              (total + n) v (omega (arith, v.size))
              (still_aligned size offset inode.word0 n le more aligned (omega (arith, v.size)))
              (omega arith) (omega (arith, v.size)) (omega (arith, v.size)) in
          let sum : n + left inode (offset + n) (size - block_size) ≡ left inode offset size =
            omega (arith, v.size) in
          (
            u2,
            next_round fuel fs inode user u1 size offset buf buf_offset total block found run more
                  (omega (arith, v.size)) (omega arith) (omega arith)
                ∙ rest
                ∙ ap (λ count. ok (count, fs, u2)) (omega (arith, sum)),
            subst (λ k. Filled fs inode offset k (buf + buf_offset) user u2) sum
                (Filled-append fs inode offset n (left inode (offset + n) (size - block_size))
                  (buf + buf_offset) user u1 u2 f
                  (subst
                    (λ q.
                      Filled fs inode (offset + n) (left inode (offset + n) (size - block_size)) q
                        u1 u2)
                    (omega arith) g)),
          )
    ]

-- The first block leaves the offset at the end of a block, or nothing to read.
first_aligned :
    (size offset w n : ℕ)
    → offset ≤ w
    → n ≡ min (min size (block_size - offset % block_size)) (w - offset)
    → ((offset + n) % block_size ≡ 0) ⊎ (min (size - n) (w - (offset + n)) ≡ 0)
first_aligned size offset w n le is =
    elim (Bool-cases (leb (block_size - offset % block_size) size)) [
      | inl long ↦
          let goes_on : block_size - offset % block_size ≤ size = ground arith in
          elim (Bool-cases (leb (block_size - offset % block_size) (w - offset))) [
            | inl there ↦
                let whole : block_size - offset % block_size ≤ w - offset = ground arith in
                inl (omega arith)
            | inr ends ↦
                let part : w - offset < block_size - offset % block_size = ground arith in
                inr (omega arith)
          ]
      | inr short ↦
          let all : size < block_size - offset % block_size = ground arith in inr (omega arith)
    ]

first_round :
    (fs : Fs) (inode : Inode) (user u1 : Mem) (offset size buf block : ℕ)
    → let n = min (min size (block_size - offset % block_size)) (sub32 inode.word0 offset) in
      (get_block_from_inode_offset inode offset ≡ ok block)
      → (move_block true n block (offset % block_size) fs user buf ≡ ok (fs, u1))
      → offset + n < 4294967296
      → move_bytes true inode offset size buf fs user
        ≡ move_rest (size / block_size + 1) true inode buf (size - n) (offset + n) n n fs u1
unfolding move_bytes
first_round fs inode user u1 offset size buf block found run lt = rw (found, run, small lt)
  where
    small : {a : ℕ} → a < 4294967296 → a % 4294967296 ≡ a
    small lt = omega arith

move_bytes-Filled :
    (fs : Fs) (inode : Inode) (user : Mem) (offset size buf : ℕ)
    → IsStored inode
    → offset ≤ inode.word0
    → size < 4294967296
    → (user' : Mem) × (move_bytes true inode offset size buf fs user
        ≡ ok (left inode offset size, fs, user'))
      × Filled fs inode offset (left inode offset size) buf user user'
move_bytes-Filled fs inode user offset size buf v le small =
    let n = min (min size (block_size - offset % block_size)) (sub32 inode.word0 offset) in
    let here : n ≡ min (min size (block_size - offset % block_size)) (inode.word0 - offset) =
      omega (arith, v.size) in
    let (block, found, is) = get_block_lem inode offset v in
    let (u1, run, f) =
      read_block fs inode user offset n (offset % block_size) buf block v (omega (arith, here))
        (omega (arith, here)) is (λ lt. refl) in
    let (u2, rest, g) =
      move_rest-Filled (size / block_size + 1) fs inode u1 (size - n) (offset + n) buf n n v
        (omega (arith, here)) (first_aligned size offset inode.word0 n le here) (omega arith)
        (omega (arith, here)) (omega (arith, here)) in
    let sum : n + left inode (offset + n) (size - n) ≡ left inode offset size =
      omega (arith, here) in
    (
      u2,
      first_round fs inode user u1 offset size buf block found run (omega (arith, here, v.size))
          ∙ rest
          ∙ ap (λ count. ok (count, fs, u2)) sum,
      subst (λ k. Filled fs inode offset k buf user u2) sum
          (Filled-append fs inode offset n (left inode (offset + n) (size - n)) buf user u1 u2 f g),
    )

-- A read of a file of at most 21 data blocks, from an offset inside it, terminates and returns the
-- number of bytes asked for, or of those left if there are fewer; exactly that many bytes of the
-- file's contents from the offset on are at the buffer, whatever the block boundaries between them
-- are, and nothing of the memory before or behind these bytes, or of the file system, has changed.
-- The file may be given by a symbolic link.
pub fs_read_bytes_lem :
    (fs : Fs) (idx file : ℕ) (inode : Inode) (user : Mem) (offset size buf : ℕ)
    → follow_symlink fs idx ≡ ok (some file)
    → get_elem? fs.inodes file ≡ some inode
    → IsStored inode
    → offset ≤ inode.word0
    → size < 4294967296
    → (user' : Mem) × (fs_read_bytes fs user idx offset size buf
        ≡ ok (min size (inode.word0 - offset), fs, user'))
      × ((j : ℕ)
          → j < min size (inode.word0 - offset)
          → user' (buf + j) ≡ content fs inode (offset + j))
      × ((q : ℕ) → (q < buf) ⊎ (buf + min size (inode.word0 - offset) ≤ q) → user' q ≡ user q)
unfolding fs_read_bytes
fs_read_bytes_lem fs idx file inode user offset size buf followed at v le small =
    let (user', run, f) = move_bytes-Filled fs inode user offset size buf v le small in
    (user', direct ∙ run, f.bytes, f.others)
  where
    direct :
        fs_read_bytes fs user idx offset size buf ≡ move_bytes true inode offset size buf fs user
    direct = ground arith
