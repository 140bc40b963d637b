-- ===== src/Process/Cleanup.antt =====
-- cleanup_proc of kernel/src/cleanup.c.
pub mod Laws
use foxtail.Common.{
  ℕ, zero, suc, ◌+◌, ◌/◌, ◌%◌, false, List, [], ◌∷◌, Mem, Outcome, ok, ◌>>=◌, ltb, ◌==◌, ◌||◌,
  if◌then◌else◌,
}
use foxtail.Fs.Inodes.{release_inode}
use foxtail.PageAlloc.{Pages, free_page}
use foxtail.Kernel.{
  Kernel, Proc, Fd, fd_regular_file, fd_regular_directory, fd_pipe, file_of, pipe_of, pipe_at,
  set_pipe, same_status, killed,
}
use foxtail.Process.Table.{proc_at, put_proc}
use foxtail.Process.Space.{Frames, pgsize}

-- The pages that the table's entries from `i` on name. `& 0xFFFFF000` is zero below a page's size.
unfoldable pub free_table : ℕ → Pages → Mem → ℕ → Outcome Pages
free_table zero pages table i = ok pages
free_table (suc rounds) pages table i =
    let rest = λ (pages' : Pages). free_table rounds pages' table (i + 1) in
    if ltb (table i) pgsize
    then rest pages
    else (free_page pages (table i / pgsize) >>= λ r. rest r.1)

-- The user's entries of the directory.
unfoldable pub free_tables : ℕ → Pages → Frames → Mem → ℕ → Outcome Pages
free_tables zero pages frames dir d = ok pages
free_tables (suc rounds) pages frames dir d =
    let rest = λ (pages' : Pages). free_tables rounds pages' frames dir (d + 1) in
    if ltb (dir d) pgsize
    then rest pages
    else free_table 1024 pages (frames (dir d / pgsize)) 0 >>= λ pages'.
        free_page pages' (dir d / pgsize) >>= λ r. rest r.1

-- One descriptor is released.
unfoldable pub release_one : Kernel → Fd → Outcome Kernel
release_one k d =
    if same_status d.status fd_regular_file || same_status d.status fd_regular_directory
    then (file_of d.target >>= λ i. release_inode k.fs i >>= λ fs. ok (record k { fs = fs }))
    else if same_status d.status fd_pipe
    then (pipe_of d.target >>= λ i. pipe_at k i >>= λ q.
        ok (set_pipe k i (record q { num_refs = (q.num_refs + 4294967295) % 4294967296 })))
    else ok k

unfoldable pub release_all : Kernel → List Fd → Outcome Kernel
unfolding release_one
release_all k [] = ok k
release_all k (d ∷ fds) = release_one k d >>= λ k'. release_all k' fds

-- FAULT_EXIT_CODE
abbrev pub fault_exit_code : ℕ
fault_exit_code = 128

-- `cr3` is an address where free_page takes the number of a page.
unfoldable pub cleanup_proc : Kernel → ℕ → Outcome Kernel
cleanup_proc k idx = proc_at k idx >>= λ p.
    free_tables 768 k.pages k.frames (k.frames (p.cr3 / pgsize)) 0 >>= λ pages.
    free_page pages p.cr3 >>= λ (freed, pages').
    release_all (record k { pages = pages' }) p.fds >>= λ k'.
    ok
      (put_proc k' idx (record p { status = killed; present = false; exit_code = fault_exit_code }))
