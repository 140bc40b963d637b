-- ===== src/Tests/Bytes.antt =====
-- fs_move_bytes of kernel/src/fs.c on one file of two blocks, 9 and 20, and sys_read on it.
use foxtail.Common.{
  ℕ, zero, suc, ◌+◌, ◌-◌, ◌≤◌, ◌<◌, ◌≡◌, refl, some, [], ◌∷◌, arith, get_or, ◌/◌, replicate, min,
  Mem, ok, ◌⊎◌,
}
use foxtail.Fs.Defs.{Fs, Inode, file, num_blocks}
use foxtail.Fs.Links.{follow_symlink}
use foxtail.Fs.Bytes.{first_data_block, fs_read_bytes}
use foxtail.Fs.Bytes.Copy.{content, IsStored}
use foxtail.Fs.Bytes.Contents.{fs_read_bytes_lem}
use foxtail.Kernel.{Kernel, Regs, Proc, Fd, fd_regular_file, file_ptr}
use foxtail.Tests.Open.{shell, machine}

abbrev text : Inode
text = record {
  name = b't' ∷ [];
  file_type = file;
  parent = 0;
  word0 = 5000;
  slots = 9 ∷ 20 ∷ replicate 19 0;
  valid = 1;
  num_refs = 0;
}

abbrev fresh : Inode
fresh = record text { word0 = 0; slots = replicate 21 0 }

abbrev disk : Inode → Fs
disk inode = record { bitmap = []; inodes = inode ∷ []; disk = λ q. q }

text_blocks :
    (k : ℕ)
    → k < 2
    → (first_data_block ≤ get_or text.slots k 0) × (get_or text.slots k 0 < num_blocks)
text_blocks zero lt = (omega arith, omega arith)
text_blocks (suc zero) lt = (omega arith, omega arith)
text_blocks (suc (suc k)) lt = absurd (omega arith)

text-IsStored : IsStored text
text-IsStored = record {
  slots = refl;
  size = omega arith;
  inside = λ i lt. text_blocks (i / 4096) (omega arith);
}

text_there : follow_symlink (disk text) 0 ≡ ok (some 0)
unfolding follow_symlink
text_there = refl

-- Bytes 4090 to 4110 lie in both blocks.
fs_read_bytes_lem_example :
    (user' : Mem) × (fs_read_bytes (disk text) (λ _. 0) 0 4090 20 100
      ≡ ok (min 20 (5000 - 4090), disk text, user'))
    × ((j : ℕ) → j < min 20 (5000 - 4090) → user' (100 + j) ≡ content (disk text) text (4090 + j))
    × ((q : ℕ) → (q < 100) ⊎ (100 + min 20 (5000 - 4090) ≤ q) → user' q ≡ 0)
fs_read_bytes_lem_example =
    fs_read_bytes_lem (disk text) 0 0 text (λ _. 0) 4090 20 100 text_there refl text-IsStored
      (omega arith) (omega arith)

abbrev on_text : Fd
on_text = record { status = fd_regular_file; mode = 2; target = file_ptr 0; ptr = 4090 }

abbrev reader : Proc
reader = shell (on_text ∷ [])

abbrev reading : Kernel
reading = record (machine 0 []) { fs = disk text; ptable = reader ∷ [] }

abbrev read_regs : Regs
read_regs = record { eax = 1; ebx = 0; ecx = 100; edx = 20; esi = 0; edi = 0 }
