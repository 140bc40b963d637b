-- ===== src/Process/Space.antt =====
-- The address space that exec_helper of kernel/src/exec.c builds in `new_pgdir`, and writes through
-- it. `temp_page_ptr` shows the frame whose address stands in the last entry of `kernel_pgtbl`, so
-- it is that frame here.
use foxtail.Common.{
  ℕ, zero, suc, ◌+◌, ◌-◌, ◌*◌, ◌/◌, ◌%◌, ◌^◌, Mem, store, Outcome, ok, fault, ◌>>=◌, leb, ◌==◌,
  if◌then◌else◌,
}
use foxtail.PageAlloc.{Pages, alloc_page, entries}
use foxtail.Kernel.{higher_half_base}

abbrev pub pgsize : ℕ
pgsize = 4096

abbrev pub Frames : Type 0
Frames = ℕ → Mem

pub record Space : Type 0 where
  pub dir : Mem
  pub frames : Frames
  pub pages : Pages

-- `temp_page_ptr[i] = v` while frame `n` is shown.
abbrev pub write_frame : Frames → ℕ → ℕ → ℕ → Frames
write_frame frames n i v m = if m == n then store (frames n) i v else frames m

-- memset and memcpy of a whole page
abbrev pub fill_frame : Frames → ℕ → Mem → Frames
fill_frame frames n content m = if m == n then content else frames m

-- The page table that directory entry `d` names; a new one is all zero.
unfoldable pub table_for : Space → ℕ → Outcome (ℕ × Space)
table_for s d =
    if s.dir d == 0
    then (alloc_page entries s.pages >>= λ (n, pages). ok (
      n,
      record {
        dir = store s.dir d (n * pgsize + 7);
        frames = fill_frame s.frames n (λ i. 0);
        pages = pages;
      },
    ))
    else ok (s.dir d / pgsize, s)

-- The body of the loop over the pages of a segment.
unfoldable pub map_page : Space → ℕ → Outcome Space
unfolding table_for
map_page s addr = table_for s (addr / 4194304) >>= λ (table, s').
    let slot = addr / pgsize % 1024 in
    if s'.frames table slot == 0
    then (alloc_page entries s'.pages >>= λ (n, pages).
        ok
          (record s' { frames = write_frame s'.frames table slot (n * pgsize + 7); pages = pages }))
    else ok s'

-- The loop itself, for `rounds` pages from `addr` on.
unfoldable pub map_pages : ℕ → Space → ℕ → Outcome Space
unfolding map_page
map_pages zero s addr = ok s
map_pages (suc rounds) s addr = map_page s addr >>= λ s'. map_pages rounds s' (addr + pgsize)

-- PAGE_ROUND_DOWN
abbrev pub page_round_down : ℕ → ℕ
page_round_down addr = addr / pgsize * pgsize

-- The pages of a segment: up to `PAGE_ROUND_DOWN(vaddr + memsz) + PGSIZE`, in `u32`.
unfoldable pub map_segment : Space → ℕ → ℕ → Outcome Space
unfolding map_pages
map_segment s vaddr memsz =
    let first = page_round_down vaddr in
    let stop = (page_round_down ((vaddr + memsz) % 4294967296) + pgsize) % 4294967296 in
    map_pages ((stop - first) / pgsize) s first

-- `cr3` with a user address: the frame behind it, if both entries are present. The kernel's half is
-- not the program's memory.
unfoldable pub translate : Frames → ℕ → ℕ → Outcome ℕ
translate frames cr3 v =
    if leb higher_half_base v
    then fault
    else (let entry = frames (cr3 / pgsize) (v / 4194304) in
        if entry % 2 == 0
        then fault
        else (let page = frames (entry / pgsize) (v / pgsize % 1024) in
            if page % 2 == 0 then fault else ok (page / pgsize)))

-- Byte `at` of a word becomes `b`.
abbrev pub put_byte_in : ℕ → ℕ → ℕ → ℕ
put_byte_in w at b = w / 256 ^ (at + 1) * 256 ^ (at + 1) + b * 256 ^ at + w % 256 ^ at

-- A byte is written at the virtual address `v`.
unfoldable pub write_byte : Frames → ℕ → ℕ → ℕ → Outcome Frames
unfolding translate
write_byte frames cr3 v b = translate frames cr3 v >>= λ n.
    let i = v / 4 % 1024 in ok (write_frame frames n i (put_byte_in (frames n i) (v % 4) b))

-- `n` bytes of `m` at `src` go to the virtual address `v`.
unfoldable pub copy_in : ℕ → Frames → ℕ → ℕ → Mem → ℕ → Outcome Frames
unfolding write_byte
copy_in zero frames cr3 v m src = ok frames
copy_in (suc n) frames cr3 v m src =
    write_byte frames cr3 v (m src) >>= λ frames'. copy_in n frames' cr3 (v + 1) m (src + 1)

-- `*stack = w`
unfoldable pub write_word : Frames → ℕ → ℕ → ℕ → Outcome Frames
unfolding translate
write_word frames cr3 v w =
    translate frames cr3 v >>= λ n. ok (write_frame frames n (v / 4 % 1024) w)
