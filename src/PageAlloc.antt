-- ===== src/PageAlloc.antt =====
-- kernel/src/pgalloc.c: the physical page allocator, a bit for each page (1 is free).
-- `page_free_map_high` and `page_free_map` are one array at two addresses, and so are
-- `page_alloc_ptr` and `*page_alloc_ptr_low`.
pub mod Laws
pub mod Words
use foxtail.Common.{
  ℕ, zero, suc, ◌+◌, ◌*◌, ◌/◌, ◌%◌, Bool, true, false, Option, none, some, List, get_elem?, get_or,
  set, ◌==◌, if◌then◌else◌, Outcome, ok, panic, fault, spin, ◌>>=◌,
}
use foxtail.Common.Bits.{test_bit, set_bit, clear_bit}

-- PAGE_FREE_MAP_ENTRIES
abbrev pub entries : ℕ
entries = 32768

pub record Pages : Type 0 where
  pub free_map : List ℕ
  pub alloc_ptr : ℕ

-- `page_free_map_high[i]`
abbrev pub word_at : List ℕ → ℕ → Outcome ℕ
word_at map i = elim (get_elem? map i) [ none ↦ fault | some w ↦ ok w ]

-- `while (page_free_map_high[ptr] == 0) ptr = (ptr + 1) % PAGE_FREE_MAP_ENTRIES`
unfoldable pub next_word : ℕ → List ℕ → ℕ → Outcome ℕ
next_word zero map ptr = spin
next_word (suc fuel) map ptr =
    let rest = next_word fuel map ((ptr + 1) % entries) in
    elim (get_elem? map ptr) [ none ↦ fault | some w ↦ if w == 0 then rest else ok ptr ]

-- `for (i = 0; i < 32; i++) if (word & (1 << i)) …`, from `i` on; `none` if no bit is set.
unfoldable pub first_bit : ℕ → ℕ → ℕ → Option ℕ
first_bit zero i w = none
first_bit (suc rounds) i w =
    let rest = first_bit rounds (i + 1) w in if test_bit w i then some i else rest

take_bit : Pages → ℕ → ℕ → Option ℕ → Outcome (ℕ × Pages)
take_bit p ptr w none = panic
take_bit p ptr w (some i) =
    ok (ptr * 32 + i, record { free_map = set p.free_map ptr (clear_bit w i); alloc_ptr = ptr })

-- The fuel is for the search of a word: `entries` words are enough (Laws).
unfoldable pub alloc_page : ℕ → Pages → Outcome (ℕ × Pages)
unfolding take_bit
alloc_page fuel p = next_word fuel p.free_map p.alloc_ptr >>= λ ptr.
    word_at p.free_map ptr >>= λ w. take_bit p ptr w (first_bit 32 0 w)

-- The twin that runs before paging is on, through the low addresses of the same objects.
pub alloc_page_low : ℕ → Pages → Outcome (ℕ × Pages)
unfolding take_bit
alloc_page_low fuel p = next_word fuel p.free_map p.alloc_ptr >>= λ ptr.
    word_at p.free_map ptr >>= λ w. take_bit p ptr w (first_bit 32 0 w)

unfoldable pub free_page : Pages → ℕ → Outcome (Bool × Pages)
free_page p index = word_at p.free_map (index / 32) >>= λ w.
    if test_bit w (index % 32)
    then ok (false, p)
    else ok (true, record p { free_map = set p.free_map (index / 32) (set_bit w (index % 32)) })
