-- ===== src/Process/Exec.antt =====
-- exec_helper of kernel/src/exec.c. The code that switches `cr3` to copy into the new address space
-- is a write through that space's directory; registers and kernel stacks are left out, and so is
-- the message about a bad magic number.
mod Arguments
mod Descriptors
use foxtail.Common.{
  ℕ, zero, suc, ◌+◌, ◌-◌, ◌*◌, ◌/◌, ◌%◌, Bool, true, false, Option, none, some, List, [], ◌∷◌, Mem,
  store, Outcome, ok, fault, ◌>>=◌, ltb, leb, ◌==◌, if◌then◌else◌,
}
use foxtail.Fs.Defs.{Fs, inode_at}
use foxtail.Fs.Bytes.{fs_read_bytes, sub32}
use foxtail.PageAlloc.{Pages, alloc_page, entries}
use foxtail.Kernel.{Kernel, Proc, embryo, read_u32, higher_half_base}
use foxtail.Process.Table.{alloc_proc, proc_at, put_proc}
use foxtail.Process.Space.{
  Space, Frames, map_segment, table_for, write_frame, fill_frame, copy_in, write_word, pgsize,
}
use foxtail.Process.Break.{sbrk_helper}
unfoldable pub use Arguments.*
unfoldable pub use Descriptors.*

-- The memory that the loader finds: the static `elf_header` and `global_arg_buf` as the last call
-- left them, a local `program_header` that is not initialised, and the kernel's directory.
pub record Statics : Type 0 where
  pub elf_header : Mem
  pub arg_buf : Mem
  pub junk : Mem
  pub kernel_dir : Mem

-- The `u16` at `p`.
abbrev pub read_u16 : Mem → ℕ → ℕ
read_u16 m p = m p + 256 * m (p + 1)

-- ELF_MAGIC, sizeof(struct elf_header) and sizeof(struct program_header)
abbrev pub elf_magic : ℕ
elf_magic = 1179403647

abbrev pub elf_header_size : ℕ
elf_header_size = 52

abbrev pub program_header_size : ℕ
program_header_size = 32

-- The fields of the two headers.
abbrev pub entry_of : Mem → ℕ
entry_of elf = read_u32 elf 24

abbrev pub phoff : Mem → ℕ
phoff elf = read_u32 elf 28

abbrev pub phnum : Mem → ℕ
phnum elf = read_u16 elf 44

abbrev pub offset_of : Mem → ℕ
offset_of ph = read_u32 ph 4

abbrev pub vaddr_of : Mem → ℕ
vaddr_of ph = read_u32 ph 8

abbrev pub filesz : Mem → ℕ
filesz ph = read_u32 ph 16

abbrev pub memsz : Mem → ℕ
memsz ph = read_u32 ph 20

-- Program header `i`; what a short read leaves of it is what stood there.
unfoldable pub program_header : Fs → ℕ → Mem → Mem → ℕ → Outcome Mem
program_header fs prog elf junk i =
    fs_read_bytes fs junk prog ((phoff elf + i * program_header_size) % 4294967296)
      program_header_size 0
    >>= λ (count, fs', ph). ok ph

-- The first loop over the program headers: the pages of each segment.
unfoldable pub map_segments : ℕ → Fs → ℕ → Mem → Mem → Space → ℕ → Outcome Space
unfolding program_header
map_segments zero fs prog elf junk s i = ok s
map_segments (suc rounds) fs prog elf junk s i = program_header fs prog elf junk i >>= λ ph.
    map_segment s (vaddr_of ph) (memsz ph) >>= λ s'. map_segments rounds fs prog elf junk s' (i + 1)

-- The stack of the program and the two pages of its kernel stack, right below HIGHER_HALF_BASE.
unfoldable pub map_stack : Space → Outcome Space
map_stack s = alloc_page entries s.pages >>= λ (stack, pages).
    alloc_page entries pages >>= λ (top, pages'). alloc_page entries pages' >>= λ (bottom, pages'').
    table_for (record s { pages = pages'' }) 767 >>= λ (table, s').
    let f = write_frame s'.frames table 1023 (stack * pgsize + 7) in
    let f' = write_frame f table 1022 (top * pgsize + 3) in
    ok (record s' { frames = write_frame f' table 1021 (bottom * pgsize + 3) })

-- The kernel's entries of the directory are copied, and the directory gets its page.
unfoldable pub place_dir : Space → Mem → Outcome (ℕ × Frames × Pages)
place_dir s kernel_dir = alloc_page entries s.pages >>= λ (n, pages).
    let full = λ (i : ℕ). if leb 768 i then kernel_dir i else s.dir i in
    ok (n * pgsize, fill_frame s.frames n full, pages)

-- The second loop: the bytes of each segment, and zeros behind them.
unfoldable pub copy_segments : ℕ → Fs → ℕ → Mem → Mem → Frames → ℕ → ℕ → Outcome Frames
unfolding program_header
copy_segments zero fs prog elf junk frames cr3 i = ok frames
copy_segments (suc rounds) fs prog elf junk frames cr3 i =
    program_header fs prog elf junk i >>= λ ph.
    fs_read_bytes fs (λ a. 0) prog (offset_of ph) (filesz ph) (vaddr_of ph)
    >>= λ (count, fs', bytes). copy_in count frames cr3 (vaddr_of ph) bytes (vaddr_of ph) >>= λ f.
        copy_in (sub32 (memsz ph) (filesz ph)) f cr3 ((vaddr_of ph + filesz ph) % 4294967296)
          (λ a. 0) 0
        >>= λ f'. copy_segments rounds fs prog elf junk f' cr3 (i + 1)

-- The arguments' page, and argc and argv on the stack.
unfoldable pub push_arguments : Frames → ℕ → ℕ → Mem → Outcome Frames
push_arguments frames cr3 argc buf =
    (if argc == 0 then ok frames else copy_in pgsize frames cr3 args_base buf 0) >>= λ f.
    write_word f cr3 (higher_half_base - 4) args_base >>= λ f1.
    write_word f1 cr3 (higher_half_base - 8) argc >>= λ f2.
    write_word f2 cr3 (higher_half_base - 12) 0 >>= λ f3.
    write_word f3 cr3 (higher_half_base - 16) 0

-- The address space of the program: its directory, its break, and the memory.
unfoldable pub build_space : Statics → Kernel → ℕ → Mem → ℕ → ℕ → Outcome (ℕ × ℕ × Frames × Pages)
unfolding map_segments map_stack place_dir copy_segments push_arguments argv_total fill_args
build_space g k prog elf argc argv =
    let empty : Space = record { dir = λ i. 0; frames = k.frames; pages = k.pages } in
    map_segments (phnum elf) k.fs prog elf g.junk empty 0 >>= λ s. map_stack s >>= λ s'.
    fill_args argc k.user argv 0 (argc * 4 % 4294967296) argc g.arg_buf >>= λ (argc', buf).
    place_dir s' g.kernel_dir >>= λ (cr3, frames, pages).
    sbrk_helper frames pages cr3 args_base (argv_total argc k.user argv 0)
    >>= λ (brk, frames', pages').
        copy_segments (phnum elf) k.fs prog elf g.junk frames' cr3 0 >>= λ f.
        push_arguments f cr3 argc' buf >>= λ f'. ok (cr3, brk, f', pages')

-- What is left once the program's space stands.
unfoldable pub finish_proc : Kernel → ℕ → Mem → ℕ → ℕ → ℕ → ℕ → Outcome Kernel
unfolding run_commands standard_fds
finish_proc k idx elf cr3 brk num_commands commands = proc_at k idx >>= λ p.
    let started = record p {
      cr3 = cr3;
      brk = brk;
      entry = entry_of elf;
      status = embryo;
      cwd = some 0;
      fds = standard_fds p.fds;
    } in
    run_commands num_commands (put_proc k idx started) idx commands >>= λ k'.
    proc_at k' idx >>= λ p'. ok (put_proc k' idx (record p' { present = true }))

-- The new process's index; `none` where the file is no program.
unfoldable pub exec_helper : Statics → Kernel → ℕ → ℕ → ℕ → ℕ → ℕ → Outcome (Option ℕ × Kernel)
unfolding build_space finish_proc
exec_helper g k prog argc argv num_commands commands =
    fs_read_bytes k.fs g.elf_header prog 0 elf_header_size 0 >>= λ (count, fs, elf).
    if read_u32 elf 0 == elf_magic
    then (alloc_proc k >>= λ (idx, k1). inode_at k1.fs prog >>= λ inode. proc_at k1 idx >>= λ p.
        let k2 = put_proc k1 idx (record p { name = inode.name }) in
        build_space g k2 prog elf argc argv >>= λ (cr3, brk, frames, pages).
        finish_proc (record k2 { frames = frames; pages = pages }) idx elf cr3 brk num_commands
          commands
        >>= λ k3. ok (some idx, k3))
    else ok (none, k)
