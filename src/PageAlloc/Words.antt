-- ===== src/PageAlloc/Words.antt =====
-- The words and bits of the map of kernel/src/pgalloc.c: the search, and what one write changes.
use foxtail.Common.{
  ℕ, zero, suc, ◌+◌, ◌*◌, ◌/◌, ◌%◌, ◌^◌, ◌≤◌, ◌<◌, ◌≡◌, ◌≢◌, inl, inr, Bool, true, some, List,
  arith, length, get_elem?, get_or, set, get_elem?-set_self, get_elem?-lt, get_elem?_total, ◌==◌,
  ok, Bool-cases, >>=-eq-ok, length-set, subst, get_or_of_get_elem?, get_or-set_self, get_or-set_ne,
  ap, set-set, set_same,
}
use native.Mathlib.Nat.{pow-suc}
use foxtail.Common.Bits.{test_bit, set_bit, clear_bit, test_bit-clear_bit_self, set_bit-clear_bit}
use foxtail.PageAlloc.{Pages, word_at, entries, next_word, first_bit, free_page}

-- The page has its bit set in the map.
abbrev pub is_free : Pages → ℕ → Bool
is_free p index = test_bit (get_or p.free_map (index / 32) 0) (index % 32)

-- The array has its length, the cursor is an index of it, and its words have 32 bits.
pub record IsValid (p : Pages) : Type 0 where
  pub size : length p.free_map ≡ entries
  pub cursor : p.alloc_ptr < entries
  pub words : (i w : ℕ) → get_elem? p.free_map i ≡ some w → w < 2 ^ 32

-- From `ptr` the search reaches a word that is not zero `d` words ahead.
pub next_word_total :
    (d fuel : ℕ) (map : List ℕ) (ptr w : ℕ)
    → length map ≡ entries
    → ptr < entries
    → get_elem? map ((ptr + d) % entries) ≡ some w
    → w ≢ 0
    → d < fuel
    → (i : ℕ) × (v : ℕ) × (next_word fuel map ptr ≡ ok i) × (get_elem? map i ≡ some v) × (v ≢ 0)
unfolding next_word
next_word_total d zero map ptr w size lt at ne enough = elim enough [ ]
next_word_total zero (suc fuel) map ptr w size lt at ne enough =
    let e : (ptr + 0) % entries ≡ ptr = omega arith in
    let here : get_elem? map ptr ≡ some w = subst (λ k. get_elem? map k ≡ some w) e at in
    (ptr, w, ground arith, here, ne)
next_word_total (suc d) (suc fuel) map ptr w size lt at ne enough =
    let (v, here) = get_elem?_total map ptr (omega arith) in
    let e : (ptr + suc d) % entries ≡ ((ptr + 1) % entries + d) % entries = omega arith in
    let ahead : get_elem? map (((ptr + 1) % entries + d) % entries) ≡ some w =
      subst (λ k. get_elem? map k ≡ some w) e at in
    elim (Bool-cases (v == 0)) [
      | inl z ↦
          let (i, u, run, at', nz) =
            next_word_total d fuel map ((ptr + 1) % entries) w size (omega arith) ahead ne
              (omega arith) in
          (i, u, ground arith, at', nz)
      | inr nz ↦ (ptr, v, ground arith, here, ground arith)
    ]

pub first_bit_sound :
    (rounds i w k : ℕ) → first_bit rounds i w ≡ some k → (test_bit w k ≡ true) × (k < i + rounds)
unfolding first_bit
first_bit_sound zero i w k h = ground arith
first_bit_sound (suc rounds) i w k h = ground (arith, first_bit_sound rounds (i + 1) w k)

pub first_bit_total :
    (rounds i w j : ℕ)
    → i ≤ j
    → j < i + rounds
    → test_bit w j ≡ true
    → (k : ℕ) × (first_bit rounds i w ≡ some k)
unfolding first_bit
first_bit_total zero i w j ge lt h = absurd (omega arith)
first_bit_total (suc rounds) i w j ge lt h = elim (Bool-cases (test_bit w i)) [
  | inl t ↦ (i, ground arith)
  | inr f ↦
      let next : i ≢ j = λ e. cc (e, h, f) in
      let (k, run) = first_bit_total rounds (i + 1) w j (omega arith) (omega arith) h in
      (k, ground arith)
]

-- The map after bit `i` of word `ptr`, which was `w`, is written as in `v`: only page
-- `ptr * 32 + i` can differ.
pub is_free_written :
    (map : List ℕ) (n ptr w v i q : ℕ)
    → get_elem? map ptr ≡ some w
    → ((k : ℕ) → k ≢ i → test_bit v k ≡ test_bit w k)
    → i < 32
    → q ≢ ptr * 32 + i
    → is_free (record { free_map = set map ptr v; alloc_ptr = n }) q
      ≡ test_bit (get_or map (q / 32) 0) (q % 32)
is_free_written map n ptr w v i q at same lt ne = elim (Bool-cases (q / 32 == ptr)) [
  | inl e ↦
      let word : q / 32 ≡ ptr = ground arith in
      let bit : q % 32 ≢ i = omega arith in
      rw
        (
          word,
          get_or-set_self map ptr v 0 (get_elem?-lt map ptr at),
          get_or_of_get_elem? map ptr 0 at,
        )
        (same (q % 32) bit)
  | inr e ↦
      let word : ptr ≢ q / 32 = ground arith in
      ap (λ x. test_bit x (q % 32)) (get_or-set_ne map v 0 word)
]

pub page_of_bit : (ptr i : ℕ) → i < 32 → ((ptr * 32 + i) / 32 ≡ ptr) × ((ptr * 32 + i) % 32 ≡ i)
page_of_bit ptr i lt = omega arith

pub clear_bit-le : (x k : ℕ) → clear_bit x k ≤ x
unfolding clear_bit
clear_bit-le x zero = omega arith
clear_bit-le x (suc k) = omega (arith, clear_bit-le (x / 2) k)

-- Setting bit `k` of a word of `w > k` bits keeps it a word of `w` bits.
pub set_bit-lt : (w x k : ℕ) → k < w → x < 2 ^ w → set_bit x k < 2 ^ w
unfolding set_bit
set_bit-lt zero x k lt h = elim lt [ ]
set_bit-lt (suc w) x zero lt h = omega (arith, pow-suc 2 w)
set_bit-lt (suc w) x (suc k) lt h =
    omega (arith, pow-suc 2 w, set_bit-lt w (x / 2) k (omega arith) (omega (arith, pow-suc 2 w)))

pub free_taken :
    (map : List ℕ) (i w k n : ℕ)
    → get_elem? map i ≡ some w
    → test_bit w k ≡ true
    → k < 32
    → free_page (record { free_map = set map i (clear_bit w k); alloc_ptr = n }) (i * 32 + k)
      ≡ ok (true, record { free_map = map; alloc_ptr = n })
unfolding free_page
free_taken map i w k n at set_k lt = ground (
  arith,
  page_of_bit i k lt,
  get_elem?-set_self map i (clear_bit w k) (get_elem?-lt map i at),
  test_bit-clear_bit_self w k,
  set_bit-clear_bit w k set_k,
  set-set map i (clear_bit w k) w,
  set_same map i at,
)

-- A page that is handed back has its word in the map, and the map keeps its length.
pub free_page-length :
    (p : Pages) (i : ℕ) (r : Bool × Pages)
    → free_page p i ≡ ok r
    → (length r.1.free_map ≡ length p.free_map) × (i / 32 < length p.free_map)
unfolding free_page
free_page-length p i r run =
    let (w, at, rest) = >>=-eq-ok (word_at p.free_map (i / 32)) _ run in
    let found : get_elem? p.free_map (i / 32) ≡ some w = ground arith in
    (
      ground (arith, rest, length-set p.free_map (i / 32) (set_bit w (i % 32))),
      get_elem?-lt p.free_map (i / 32) found,
    )
