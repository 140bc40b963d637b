-- ===== src/Tests/Pipe.antt =====
-- The pipe loops of kernel/src/syscall.c on a small pipe.
use foxtail.Common.{ℕ, suc, ◌+◌, ◌*◌, ◌<◌, ◌≡◌, refl, true, ok, [], ◌∷◌, arith, Mem, store_list}
use foxtail.Kernel.{pipe_buf_size}
use foxtail.Syscall.Pipe.{Ring, pipe_write, pipe_read}
use foxtail.Syscall.Pipe.Write.{Written, pipe_write_lem, pipe_write_overrun}
use foxtail.Syscall.Pipe.Fifo.{pipe_read-pipe_write}

-- "hi" and a newline at 100
abbrev line : Mem
line = store_list (λ _. 0) 100 (b'h' ∷ b'i' ∷ b'\n' ∷ [])

abbrev ring : ℕ → ℕ → ℕ → Ring
ring read_ptr write_ptr internal_write_ptr = record {
  state = record {
    num_refs = 2;
    read_ptr = read_ptr;
    write_ptr = write_ptr;
    internal_write_ptr = internal_write_ptr;
  };
  buffers = λ _. 0;
}

pipe_write_lem_example :
    (r' : Ring) × (pipe_write 0 3 line 100 (ring 5 5 5) ≡ ok (true, r'))
    × Written 0 3 line 100 (ring 5 5 5) r'
pipe_write_lem_example =
    pipe_write_lem 0 3 line 100 (ring 5 5 5) (λ j lt e. absurd (omega arith)) (omega arith)

pipe_write_overrun_example :
    (r' : Ring) × (o : ℕ) × (pipe_write 0 3 line 100 (ring 9 16382 16382) ≡ ok (true, r'))
    × (o < pipe_buf_size)
    × (16382 + 2 ≡ pipe_buf_size + o)
    × (r'.buffers ((0 + 1) * pipe_buf_size + o) ≡ line (100 + 2))
pipe_write_overrun_example =
    pipe_write_overrun 0 3 2 line 100 (ring 9 16382 16382) (λ j lt e. absurd (omega arith))
      (omega arith) (omega arith) (omega arith) (omega arith) (omega arith)

pipe_read-pipe_write_example :
    (r1 r2 : Ring) × (user2 : Mem) × (pipe_write 0 (suc 2) line 100 (ring 5 5 5) ≡ ok (true, r1))
    × (pipe_read 0 64 (λ _. 0) 200 0 r1 ≡ (suc 2, user2, r2))
    × ((j : ℕ) → j < suc 2 → user2 (200 + j) ≡ line (100 + j))
    × (r2.state.read_ptr ≡ r2.state.write_ptr)
pipe_read-pipe_write_example =
    pipe_read-pipe_write 0 2 64 line (λ _. 0) 100 200 (ring 5 5 5) (omega arith) refl (omega arith)
      refl (omega arith)
