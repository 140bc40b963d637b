-- ===== src/Process/Break.antt =====
-- sbrk_helper of kernel/src/syscall.c. An `i32` is its `u32` of the same bits.
use foxtail.Common.{
  ℕ, zero, suc, ◌+◌, ◌-◌, ◌*◌, ◌/◌, ◌%◌, max, store, Outcome, ok, fault, ◌>>=◌, ltb, ◌==◌,
  if◌then◌else◌,
}
use foxtail.PageAlloc.{Pages, alloc_page, free_page, entries}
use foxtail.Process.Space.{Space, Frames, write_frame, fill_frame, pgsize}

-- `((delta + PGSIZE - 1) / PGSIZE) * PGSIZE`, where the division goes towards 0; a sum that leaves
-- `i32` is undefined.
unfoldable pub round_delta : ℕ → Outcome ℕ
round_delta delta =
    if ltb delta 2147483648
    then (if ltb (2147483647 - 4095) delta then fault else ok ((delta + 4095) / pgsize * pgsize))
    else ok ((4294967296 - (4294967296 - delta - 4095) / pgsize * pgsize) % 4294967296)

-- One page less, at `addr`; the frame allocator's answer is ignored.
unfoldable pub unmap_page : Space → ℕ → Outcome Space
unmap_page s addr =
    let d = addr / 4194304 in
    let entry = s.dir d in
    let slot = addr / pgsize % 1024 in
    if entry % 2 == 0
    then fault
    else free_page s.pages (s.frames (entry / pgsize) slot / pgsize) >>= λ (freed, pages).
        let frames = write_frame s.frames (entry / pgsize) slot 0 in
        if addr == d * 4194304
        then (free_page pages (entry / pgsize) >>= λ (freed', pages').
            ok (record { dir = store s.dir d 0; frames = frames; pages = pages' }))
        else ok (record s { frames = frames; pages = pages })

-- `for (addr = …; addr >= …; addr -= PGSIZE)`, for `rounds` pages below `top`.
unfoldable pub shrink : ℕ → Space → ℕ → Outcome Space
unfolding unmap_page
shrink zero s top = ok s
shrink (suc rounds) s top = unmap_page s (top - pgsize) >>= λ s'. shrink rounds s' (top - pgsize)

-- The page table of `addr`, which is new where the directory's entry is not present.
unfoldable pub present_table : Space → ℕ → Outcome (ℕ × Space)
present_table s d =
    if s.dir d % 2 == 0
    then (alloc_page entries s.pages >>= λ (n, pages). ok (
      n,
      record {
        dir = store s.dir d (n * pgsize + 7);
        frames = fill_frame s.frames n (λ i. 0);
        pages = pages;
      },
    ))
    else ok (s.dir d / pgsize, s)

-- One page more, at `addr`.
unfoldable pub add_page : Space → ℕ → Outcome Space
unfolding present_table
add_page s addr = present_table s (addr / 4194304) >>= λ (table, s').
    alloc_page entries s'.pages >>= λ (n, pages). ok (record s' {
      frames = write_frame s'.frames table (addr / pgsize % 1024) (n * pgsize + 7);
      pages = pages;
    })

unfoldable pub extend : ℕ → Space → ℕ → Outcome Space
unfolding add_page
extend zero s addr = ok s
extend (suc rounds) s addr = add_page s addr >>= λ s'. extend rounds s' (addr + pgsize)

-- What `brk_delta` is in the end: a move down goes through `max`, which compares without signs.
unfoldable pub clamp_delta : ℕ → ℕ → ℕ
clamp_delta brk delta =
    if ltb delta 2147483648
    then delta
    else max delta ((2147483648 + (4294967296 - brk)) % 4294967296)

-- The two loops, chosen by the sign before the clamp.
unfoldable pub move_break : Space → ℕ → ℕ → Outcome (ℕ × Space)
unfolding shrink extend clamp_delta
move_break s brk delta =
    let brk' = (brk + clamp_delta brk delta) % 4294967296 in
    (if ltb delta 2147483648
      then extend ((brk' - brk) / pgsize) s brk
      else shrink ((brk - brk') / pgsize) s brk)
    >>= λ s'. ok (brk', s')

-- The directory is worked on in a copy, `sbrk_temp_pgdir`, and written back: `brk` and `cr3` are the
-- process's.
unfoldable pub sbrk_helper : Frames → Pages → ℕ → ℕ → ℕ → Outcome (ℕ × Frames × Pages)
unfolding round_delta move_break
sbrk_helper frames pages cr3 brk delta = round_delta delta >>= λ brk_delta.
    if brk_delta == 0
    then ok (brk, frames, pages)
    else move_break (record { dir = frames (cr3 / pgsize); frames = frames; pages = pages }) brk
        brk_delta
      >>= λ (brk', s). ok (brk', fill_frame s.frames (cr3 / pgsize) s.dir, s.pages)
