-- ===== src/Process/Cleanup/Laws.antt =====
-- cleanup_proc of kernel/src/cleanup.c and the frame allocator.
use foxtail.Common.{
  ℕ, zero, suc, ◌+◌, ◌*◌, ◌/◌, ◌%◌, ◌≤◌, ◌<◌, ◌≡◌, sym, ap, ◌∙◌, Bool, true, false, some, arith,
  length, get_elem?, get_elem?-lt, get_elem?_total, set, Option-cases, Mem, ok, fault, ◌>>=◌,
  >>=-eq-ok, ok_injective, ltb, Bool-cases, inl, inr,
}
use foxtail.Common.Bits.{test_bit, set_bit}
use foxtail.PageAlloc.{Pages, free_page, entries}
use foxtail.PageAlloc.Words.{free_page-length}
use foxtail.Kernel.{Kernel, Proc}
use foxtail.Process.Space.{Frames, pgsize}
use foxtail.Process.Cleanup.{free_table, free_tables, cleanup_proc}

free_table-length :
    (rounds : ℕ) (p p' : Pages) (table : Mem) (i : ℕ)
    → free_table rounds p table i ≡ ok p'
    → length p'.free_map ≡ length p.free_map
unfolding free_table
free_table-length zero p p' table i run =
    ap (λ (x : Pages). length x.free_map) (sym (ok_injective run))
free_table-length (suc rounds) p p' table i run = elim (Bool-cases (ltb (table i) pgsize)) [
  | inl empty ↦ free_table-length rounds p p' table (i + 1) (ground arith)
  | inr used ↦
      let body : (free_page p (table i / pgsize) >>= λ r. free_table rounds r.1 table (i + 1))
          ≡ ok p' =
        ground arith in
      let (r, freed, rest) = >>=-eq-ok (free_page p (table i / pgsize)) _ body in
      free_table-length rounds r.1 p' table (i + 1) rest
      ∙ (free_page-length p (table i / pgsize) r freed).0
]

free_tables-length :
    (rounds : ℕ) (p p' : Pages) (frames : Frames) (dir : Mem) (d : ℕ)
    → free_tables rounds p frames dir d ≡ ok p'
    → length p'.free_map ≡ length p.free_map
unfolding free_tables
free_tables-length zero p p' frames dir d run =
    ap (λ (x : Pages). length x.free_map) (sym (ok_injective run))
free_tables-length (suc rounds) p p' frames dir d run = elim (Bool-cases (ltb (dir d) pgsize)) [
  | inl empty ↦ free_tables-length rounds p p' frames dir (d + 1) (ground arith)
  | inr used ↦
      let body : (free_table 1024 p (frames (dir d / pgsize)) 0 >>= λ q.
      free_page q (dir d / pgsize) >>= λ r. free_tables rounds r.1 frames dir (d + 1))
          ≡ ok p' =
        ground arith in
      let (q, table, rest) = >>=-eq-ok (free_table 1024 p (frames (dir d / pgsize)) 0) _ body in
      let (r, freed, rest') = >>=-eq-ok (free_page q (dir d / pgsize)) _ rest in
      free_tables-length rounds r.1 p' frames dir (d + 1) rest'
      ∙ (free_page-length q (dir d / pgsize) r freed).0
      ∙ free_table-length 1024 p q (frames (dir d / pgsize)) 0 table
]

-- A page number behind the map is not accepted: the word of its bit is outside the array.
free_page_outside :
    (p : Pages) (index : ℕ) → length p.free_map * 32 ≤ index → free_page p index ≡ fault
unfolding free_page
free_page_outside p index le = elim (Option-cases (get_elem? p.free_map (index / 32))) [
  | inl missing ↦ ground arith
  | inr (w, there) ↦ absurd (omega (arith, le, get_elem?-lt p.free_map (index / 32) there))
]

free_page_inside :
    (p : Pages) (index : ℕ)
    → index < length p.free_map * 32
    → (r : Bool × Pages) × (free_page p index ≡ ok r)
unfolding free_page
free_page_inside p index lt =
    let (w, there) = get_elem?_total p.free_map (index / 32) (omega arith) in
    elim (Bool-cases (test_bit w (index % 32))) [
      | inl free ↦ ((false, p), ground arith)
      | inr used ↦ (
        (true, record p { free_map = set p.free_map (index / 32) (set_bit w (index % 32)) }),
        ground arith,
      )
    ]

-- The frame allocator's map has its full length, the process's directory lies at the address of page
-- `n` of the 2^20, with `n` at least 256 (addresses from 1 MiB on), and the pages that its tables
-- name can be freed. Then free_page, which is given the directory's address for a page number,
-- accesses a word behind the map, and so does cleanup_proc. With the number of that page free_page
-- would stay inside the map.
pub cleanup_proc-free_page :
    (k : Kernel) (idx n : ℕ) (p : Proc) (pages : Pages)
    → length k.pages.free_map ≡ entries
    → get_elem? k.ptable idx ≡ some p
    → p.cr3 ≡ n * pgsize
    → 256 ≤ n
    → n < 1048576
    → free_tables 768 k.pages k.frames (k.frames (p.cr3 / pgsize)) 0 ≡ ok pages
    → (free_page pages p.cr3 ≡ fault)
      × (cleanup_proc k idx ≡ fault)
      × ((r : Bool × Pages) × (free_page pages (p.cr3 / pgsize) ≡ ok r))
unfolding cleanup_proc
cleanup_proc-free_page k idx n p pages size at cr3 high low tables =
    let kept = free_tables-length 768 k.pages pages k.frames (k.frames (p.cr3 / pgsize)) 0 tables in
    let outside = free_page_outside pages p.cr3 (omega (arith, kept, size, cr3, high)) in
    (
      outside,
      ground (arith, at, tables, outside),
      free_page_inside pages (p.cr3 / pgsize) (omega (arith, kept, size, cr3, low)),
    )
