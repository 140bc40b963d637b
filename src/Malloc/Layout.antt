-- ===== src/Malloc/Layout.antt =====
-- The blocks of the heap of user/include/malloc.h one behind another.
use foxtail.Common.{
  ◌⊎◌, ◌≢◌, inl, inr, ℕ, ◌+◌, ◌≤◌, ◌<◌, ◌≡◌, refl, subst, Bool, true, false, not, ◌&&◌, ◌||◌, some,
  List, [], ◌∷◌, arith, Bool-cases, leb, ◌==◌, if◌then◌else◌,
}
use foxtail.Malloc.{Block, header_size, find_free_block, set_free, add_last}

-- From `lo` on the blocks follow one another without overlap, and end at or before `top`.
abbrev pub Laid : ℕ → List Block → ℕ → Type 0
Laid lo [] top = lo ≤ top
Laid lo (b ∷ blocks) top = (lo ≤ b.addr) × Laid (b.addr + header_size + b.size) blocks top

-- Whether the block at an address is in use.
abbrev pub used : List Block → ℕ → Bool
used [] a = false
used (b ∷ blocks) a = if b.addr == a then not b.free else used blocks a

-- The size of the block at an address, and 0 where there is none.
abbrev pub size_at : List Block → ℕ → ℕ
size_at [] a = 0
size_at (b ∷ blocks) a = if b.addr == a then b.size else size_at blocks a

pub Laid-set_free :
    (lo addr top : ℕ) (value : Bool) (blocks : List Block)
    → Laid lo blocks top
    → Laid lo (set_free addr value blocks) top
unfolding set_free
Laid-set_free lo addr top value [] h = h
Laid-set_free lo addr top value (b ∷ blocks) (le, h) = elim (Bool-cases (b.addr == addr)) [
  | inl here ↦ rw here (le, h)
  | inr other ↦ rw other (le, Laid-set_free (b.addr + header_size + b.size) addr top value blocks h)
]

pub Laid-add_last :
    (lo top top' : ℕ) (blocks : List Block) (new : Block)
    → Laid lo blocks top
    → top ≤ new.addr
    → new.addr + header_size + new.size ≤ top'
    → Laid lo (add_last blocks new) top'
Laid-add_last lo top top' [] new h le le' = (omega arith, le')
Laid-add_last lo top top' (b ∷ blocks) new (le0, h) le le' =
    (le0, Laid-add_last (b.addr + header_size + b.size) top top' blocks new h le le')

Laid-top : (lo top : ℕ) (blocks : List Block) → Laid lo blocks top → lo ≤ top
Laid-top lo top [] h = h
Laid-top lo top (b ∷ blocks) (le, h) =
    omega (arith, Laid-top (b.addr + header_size + b.size) top blocks h)

pub used-add_last :
    (lo top : ℕ) (blocks : List Block) (new : Block) (a : ℕ)
    → Laid lo blocks top
    → top ≤ new.addr
    → new.free ≡ false
    → used (add_last blocks new) a ≡ (a == new.addr || used blocks a)
used-add_last lo top [] new a h le is = ground arith
used-add_last lo top (b ∷ blocks) new a (le0, h) le is =
    let before = Laid-top (b.addr + header_size + b.size) top blocks h in
    let rest = used-add_last (b.addr + header_size + b.size) top blocks new a h le is in
    ground (arith, before, rest)

-- A block at or behind the top is not in the list.
pub used_above :
    (lo top a : ℕ) (blocks : List Block) → Laid lo blocks top → top ≤ a → used blocks a ≡ false
used_above lo top a [] h le = refl
used_above lo top a (b ∷ blocks) (le0, h) le =
    let before = Laid-top (b.addr + header_size + b.size) top blocks h in
    let rest = used_above (b.addr + header_size + b.size) top a blocks h le in
    ground (arith, before, rest)

-- Before the first block there is none.
used_below :
    (lo top a : ℕ) (blocks : List Block) → Laid lo blocks top → a < lo → used blocks a ≡ false
used_below lo top a [] h lt = refl
used_below lo top a (b ∷ blocks) (le0, h) lt =
    let rest = used_below (b.addr + header_size + b.size) top a blocks h (omega arith) in
    ground (arith, rest)

pub size_at-add_last :
    (lo top : ℕ) (blocks : List Block) (new : Block)
    → Laid lo blocks top
    → top ≤ new.addr
    → size_at (add_last blocks new) new.addr ≡ new.size
size_at-add_last lo top [] new h le = ground arith
size_at-add_last lo top (b ∷ blocks) new (le0, h) le =
    let before = Laid-top (b.addr + header_size + b.size) top blocks h in
    let rest = size_at-add_last (b.addr + header_size + b.size) top blocks new h le in
    ground (arith, before, rest)

pub size_at-set_free :
    (blocks : List Block) (addr : ℕ) (value : Bool) (a : ℕ)
    → size_at (set_free addr value blocks) a ≡ size_at blocks a
unfolding set_free
size_at-set_free [] addr value a = refl
size_at-set_free (b ∷ blocks) addr value a = ground (arith, size_at-set_free blocks addr value a)

-- The block that the search finds: it is free, it is big enough, and it is the one at its address.
pub record Found (size lo : ℕ) (blocks : List Block) (b : Block) : Type 0 where
  pub above : lo ≤ b.addr
  pub unused : used blocks b.addr ≡ false
  pub big : size ≤ size_at blocks b.addr
  pub taken : (a : ℕ) → used (set_free b.addr false blocks) a ≡ (a == b.addr || used blocks a)

pub find_free_block-Found :
    (size lo top : ℕ) (blocks : List Block) (b : Block)
    → Laid lo blocks top
    → find_free_block size blocks ≡ some b
    → Found size lo blocks b
unfolding find_free_block set_free
find_free_block-Found size lo top [] b h run = absurd (ground arith)
find_free_block-Found size lo top (x ∷ blocks) b (le, h) run =
    elim (Bool-cases (x.free && leb size x.size)) [
      | inl here ↦
          let it : x ≡ b = ground arith in
          subst (Found size lo (x ∷ blocks)) it (record {
            above = le;
            unused = ground arith;
            big = ground arith;
            taken = λ a. ground arith;
          })
      | inr other ↦
          let f =
            find_free_block-Found size (x.addr + header_size + x.size) top blocks b h
              (ground arith) in
          let behind : (x.addr == b.addr) ≡ false = ground (arith, f.above) in
          record {
            above = omega (arith, f.above);
            unused = rw behind f.unused;
            big = rw behind f.big;
            taken = λ a. ground (arith, f.taken a, f.above);
          }
    ]

-- Freeing a block that is in use takes it, and no other, out of use.
pub used-set_free :
    (blocks : List Block) (addr a : ℕ)
    → used (set_free addr true blocks) a ≡ (not (a == addr) && used blocks a)
unfolding set_free
used-set_free [] addr a = ground arith
used-set_free (b ∷ blocks) addr a = ground (arith, used-set_free blocks addr a)

used_from :
    (lo top a : ℕ) (blocks : List Block) → Laid lo blocks top → used blocks a ≡ true → lo ≤ a
used_from lo top a blocks h is = elim (Bool-cases (leb lo a)) [
  | inl inside ↦ ground arith
  | inr below ↦
      let before : a < lo = ground arith in
      let no = used_below lo top a blocks h before in absurd (cc)
]

-- One block, with its header, ends before the other begins.
abbrev pub Apart : List Block → ℕ → ℕ → Type 0
Apart blocks a c =
    (a + header_size + size_at blocks a ≤ c) ⊎ (c + header_size + size_at blocks c ≤ a)

pub used-Apart :
    (lo top a c : ℕ) (blocks : List Block)
    → Laid lo blocks top
    → used blocks a ≡ true
    → used blocks c ≡ true
    → a ≢ c
    → Apart blocks a c
used-Apart lo top a c [] h is is' ne = absurd (cc)
used-Apart lo top a c (b ∷ blocks) (le, h) is is' ne =
    let next = b.addr + header_size + b.size in
    elim (Bool-cases (b.addr == a)) [
      | inl first ↦
          let there : (b.addr == c) ≡ false = ground arith in
          let behind = used_from next top c blocks h (ground (arith, is')) in
          rw first (inl (ground arith))
      | inr not_first ↦ elim (Bool-cases (b.addr == c)) [
        | inl second ↦
            let behind = used_from next top a blocks h (ground (arith, is)) in
            rw (not_first, second) (inr (ground arith))
        | inr not_second ↦
            rw (not_first, not_second)
              (used-Apart next top a c blocks h (ground (arith, is)) (ground (arith, is')) ne)
      ]
    ]
