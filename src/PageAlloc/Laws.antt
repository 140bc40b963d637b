-- ===== src/PageAlloc/Laws.antt =====
-- alloc_page and free_page of kernel/src/pgalloc.c.
use foxtail.Common.{
  ℕ, ◌+◌, ◌-◌, ◌*◌, ◌/◌, ◌%◌, ◌^◌, ◌<◌, ◌≡◌, ◌≢◌, refl, inl, inr, true, false, not, some, arith,
  length, get_elem?, set, length-set, get_elem?-lt, get_elem?_total, if◌then◌else◌, ok, Bool-cases,
  subst, get_or_of_get_elem?, get_or-set_self, ap, sym, ◌∙◌, set_all,
}
use foxtail.Common.Bits.{
  test_bit, set_bit, clear_bit, test_bit-set_bit_self, test_bit-clear_bit_self, test_bit-set_bit_ne,
  test_bit-clear_bit_ne, test_bit-zero, bit_of_ne_zero,
}
use foxtail.PageAlloc.{Pages, entries, next_word, first_bit, alloc_page, free_page}
use foxtail.PageAlloc.Words.{
  is_free, IsValid, next_word_total, first_bit_sound, first_bit_total, is_free_written, page_of_bit,
  clear_bit-le, set_bit-lt, free_taken,
}

-- What `alloc_page` has done when it returns page `q` and state `p'`.
pub record Allocated (p : Pages) (q : ℕ) (p' : Pages) : Type 0 where
  pub was_free : is_free p q ≡ true
  pub in_map : q < entries * 32
  pub taken : is_free p' q ≡ false
  pub others : (r : ℕ) → r ≢ q → is_free p' r ≡ is_free p r
  pub valid : IsValid p'

take_bit_lem :
    (p : Pages) (ptr w k : ℕ)
    → IsValid p
    → get_elem? p.free_map ptr ≡ some w
    → test_bit w k ≡ true
    → k < 32
    → Allocated p
        (ptr * 32 + k)
        (record { free_map = set p.free_map ptr (clear_bit w k); alloc_ptr = ptr })
take_bit_lem p ptr w k v at set_k lt = record {
  was_free = rw (page.0, page.1, get_or_of_get_elem? p.free_map ptr 0 at) set_k;
  in_map = omega (arith, v.size, inside);
  taken =
      rw (page.0, page.1, get_or-set_self p.free_map ptr (clear_bit w k) 0 inside)
        (test_bit-clear_bit_self w k);
  others = λ r ne.
      is_free_written p.free_map ptr ptr w (clear_bit w k) k r at
        (λ j ne'. test_bit-clear_bit_ne w k j (λ e. ne' (sym e))) lt ne;
  valid = record {
    size = length-set p.free_map ptr (clear_bit w k) ∙ v.size;
    cursor = omega (arith, v.size, inside);
    words =
        set_all (λ x. x < 2 ^ 32) p.free_map ptr (clear_bit w k)
          (omega (arith, clear_bit-le w k, v.words ptr w at)) v.words;
  };
}
  where
    page : ((ptr * 32 + k) / 32 ≡ ptr) × ((ptr * 32 + k) % 32 ≡ k)
    page = page_of_bit ptr k lt

    inside : ptr < length p.free_map
    inside = get_elem?-lt p.free_map ptr at

-- The search's result, on a map with a free page.
next_word_found :
    (p : Pages) (free : ℕ)
    → IsValid p
    → free < entries * 32
    → is_free p free ≡ true
    → (i : ℕ) × (w : ℕ) × (next_word entries p.free_map p.alloc_ptr ≡ ok i)
      × (get_elem? p.free_map i ≡ some w)
      × (w ≢ 0)
next_word_found p free v lt is =
    let (w, at) = get_elem?_total p.free_map (free / 32) (omega (arith, v.size)) in
    let set_there : test_bit w (free % 32) ≡ true =
      sym (ap (λ x. test_bit x (free % 32)) (get_or_of_get_elem? p.free_map (free / 32) 0 at))
      ∙ is in
    let d = (free / 32 + entries - p.alloc_ptr) % entries in
    let e : free / 32 ≡ (p.alloc_ptr + d) % entries = omega (arith, v.cursor) in
    next_word_total d entries p.free_map p.alloc_ptr w v.size v.cursor
      (subst (λ k. get_elem? p.free_map k ≡ some w) e at)
      (λ z. cc (ap (λ x. test_bit x (free % 32)) z, set_there, test_bit-zero (free % 32)))
      (omega arith)

alloc_page_run :
    (p : Pages) (i w k : ℕ)
    → next_word entries p.free_map p.alloc_ptr ≡ ok i
    → get_elem? p.free_map i ≡ some w
    → first_bit 32 0 w ≡ some k
    → alloc_page entries p
      ≡ ok (i * 32 + k, record { free_map = set p.free_map i (clear_bit w k); alloc_ptr = i })
unfolding alloc_page
alloc_page_run p i w k run at first = ground arith

free_page_run :
    (p : Pages) (q w : ℕ)
    → get_elem? p.free_map (q / 32) ≡ some w
    → free_page p q ≡ (
        if test_bit w (q % 32)
        then ok (false, p)
        else ok (true, record p { free_map = set p.free_map (q / 32) (set_bit w (q % 32)) }))
unfolding free_page
free_page_run p q w at = ground arith

-- While some page is free, alloc_page terminates (with `entries` rounds of its search) and does not
-- panic: it returns a page that was free, marks it and no other, and keeps the map well formed.
pub alloc_page_lem :
    (p : Pages) (free : ℕ)
    → IsValid p
    → free < entries * 32
    → is_free p free ≡ true
    → (q : ℕ) × (p' : Pages) × (alloc_page entries p ≡ ok (q, p')) × Allocated p q p'
alloc_page_lem p free v lt is =
    let (i, w, run, at, ne) = next_word_found p free v lt is in
    let (j, j_lt, j_set) = bit_of_ne_zero 32 w (v.words i w at) ne in
    let (k, first) = first_bit_total 32 0 w j (omega arith) (omega arith) j_set in
    let sound = first_bit_sound 32 0 w k first in
    (
      i * 32 + k,
      record { free_map = set p.free_map i (clear_bit w k); alloc_ptr = i },
      alloc_page_run p i w k run at first,
      take_bit_lem p i w k v at sound.0 (omega (arith, sound.1)),
    )

-- free_page on a page of the map succeeds exactly if the page was allocated; then it marks that page
-- free and no other, and otherwise it changes nothing.
pub free_page_lem :
    (p : Pages) (q : ℕ)
    → IsValid p
    → q < entries * 32
    → (p' : Pages) × (free_page p q ≡ ok (not (is_free p q), p'))
      × (is_free p' q ≡ true)
      × ((r : ℕ) → r ≢ q → is_free p' r ≡ is_free p r)
      × IsValid p'
free_page_lem p q v lt =
    let (w, at) = get_elem?_total p.free_map (q / 32) (omega (arith, v.size)) in
    let word = get_or_of_get_elem? p.free_map (q / 32) 0 at in
    elim (Bool-cases (test_bit w (q % 32))) [
      | inl set_q ↦
          (p, free_page_run p q w at ∙ rw (set_q, word, set_q), rw word set_q, (λ r ne. refl), v)
      | inr clear ↦ (
        record p { free_map = set p.free_map (q / 32) (set_bit w (q % 32)) },
        free_page_run p q w at ∙ rw (clear, word, clear),
        rw (get_or-set_self p.free_map (q / 32) (set_bit w (q % 32)) 0 (omega (arith, v.size)))
            (test_bit-set_bit_self w (q % 32)),
        (λ r ne.
            is_free_written p.free_map p.alloc_ptr (q / 32) w (set_bit w (q % 32)) (q % 32) r at
              (λ j ne'. test_bit-set_bit_ne w (q % 32) j (λ e. ne' (sym e))) (omega arith)
              (λ e. ne (omega arith))),
        record {
          size = length-set p.free_map (q / 32) (set_bit w (q % 32)) ∙ v.size;
          cursor = v.cursor;
          words =
              set_all (λ x. x < 2 ^ 32) p.free_map (q / 32) (set_bit w (q % 32))
                (set_bit-lt 32 w (q % 32) (omega arith) (v.words (q / 32) w at)) v.words;
        },
      )
    ]

-- An allocated page that is freed at once leaves the map as it was before the allocation.
pub free_page-alloc_page :
    (p : Pages) (free : ℕ)
    → IsValid p
    → free < entries * 32
    → is_free p free ≡ true
    → (q : ℕ) × (p' : Pages) × (alloc_page entries p ≡ ok (q, p'))
      × (free_page p' q ≡ ok (true, record p' { free_map = p.free_map }))
free_page-alloc_page p free v lt is =
    let (i, w, run, at, ne) = next_word_found p free v lt is in
    let (j, j_lt, j_set) = bit_of_ne_zero 32 w (v.words i w at) ne in
    let (k, first) = first_bit_total 32 0 w j (omega arith) (omega arith) j_set in
    let sound = first_bit_sound 32 0 w k first in
    (
      i * 32 + k,
      record { free_map = set p.free_map i (clear_bit w k); alloc_ptr = i },
      alloc_page_run p i w k run at first,
      free_taken p.free_map i w k i at sound.0 (omega (arith, sound.1)),
    )
