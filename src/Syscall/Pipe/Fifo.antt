-- ===== src/Syscall/Pipe/Fifo.antt =====
-- The pipe loops of sys_write and sys_read in kernel/src/syscall.c as a queue.
use foxtail.Common.{
  ℕ, zero, suc, ◌+◌, ◌*◌, ◌%◌, ◌≤◌, ◌<◌, ◌≡◌, refl, ap, ◌∙◌, true, arith, ok, Mem, store, add-zero,
  zero-add,
}
use foxtail.Kernel.{pipe_buf_size, num_pipe_bufs}
use foxtail.Syscall.Pipe.{Ring, pipe_write, pipe_read}
use foxtail.Syscall.Pipe.Write.{pipe_write_lem}

-- What a read leaves of the user's memory and the pipe, when `n` bytes are there: it copies them.
record Taken (i n : ℕ) (user user' : Mem) (p : ℕ) (r r' : Ring) : Type 0 where
  write_ptr : r'.state.write_ptr ≡ r.state.write_ptr
  next : r'.state.read_ptr ≡ r.state.read_ptr + n
  bytes : (j : ℕ) → j < n → user' (p + j) ≡ r.buffers (i * pipe_buf_size + r.state.read_ptr + j)
  others : (q : ℕ) → q < p → user' q ≡ user q

pipe_read_lem :
    (i m n : ℕ) (user : Mem) (p count : ℕ) (r : Ring)
    → n ≤ m
    → r.state.write_ptr ≡ r.state.read_ptr + n
    → r.state.write_ptr < pipe_buf_size
    → (user' : Mem) × (r' : Ring) × (pipe_read i m user p count r ≡ (count + n, user', r'))
      × Taken i n user user' p r r'
unfolding pipe_read
pipe_read_lem i m zero user p count r le there small = (
  user,
  r,
  empty i m user p count r (omega arith),
  record {
    write_ptr = refl;
    next = omega arith;
    bytes = λ j lt. elim lt [ ];
    others = λ q lt. refl;
  },
)
  where
    empty :
        (i m : ℕ) (user : Mem) (p count : ℕ) (r : Ring)
        → r.state.read_ptr ≡ r.state.write_ptr
        → pipe_read i m user p count r ≡ (count + 0, user, r)
    empty i zero user p count r e = ground arith
    empty i (suc m) user p count r e = ground arith
pipe_read_lem i zero (suc n) user p count r le there small = absurd (omega arith)
pipe_read_lem i (suc m) (suc n) user p count r le there small =
    let c = r.buffers (i * pipe_buf_size + r.state.read_ptr) in
    let q = record (r.state) { read_ptr = (r.state.read_ptr + 1) % pipe_buf_size } in
    let (user', r', run, t) =
      pipe_read_lem i m n (store user p c) (p + 1) (count + 1) (record r { state = q })
        (omega arith) (omega arith) small in
    (
      user',
      r',
      ground (arith, run),
      record {
        write_ptr = t.write_ptr;
        next = omega (arith, t.next);
        bytes = bytes user' r' t;
        others = λ a lt. ground (arith, t.others a (omega arith));
      },
    )
  where
    bytes :
        (user' : Mem) (r' : Ring)
        → Taken i n
            (store user p (r.buffers (i * pipe_buf_size + r.state.read_ptr)))
            user'
            (p + 1)
            (record r {
              state = record (r.state) { read_ptr = (r.state.read_ptr + 1) % pipe_buf_size };
            })
            r'
        → (j : ℕ) → j < suc n
        → user' (p + j) ≡ r.buffers (i * pipe_buf_size + r.state.read_ptr + j)
    bytes user' r' t zero lt = ap user' (add-zero p) ∙ t.others p (omega arith) ∙ ground arith
    bytes user' r' t (suc j) lt =
        ap user' (omega arith) ∙ t.bytes j (omega arith) ∙ ap r.buffers (omega arith)

-- Bytes that are written to an empty pipe, one of the 16, and end with a newline, with room for
-- them before the end of the buffer, are all written; a read of at least as many then yields
-- exactly these bytes in their order, and empties the pipe.
pub pipe_read-pipe_write :
    (i l m : ℕ) (user user1 : Mem) (p p1 : ℕ) (r : Ring)
    → i < num_pipe_bufs
    → r.state.read_ptr ≡ r.state.internal_write_ptr
    → r.state.internal_write_ptr + suc l < pipe_buf_size
    → user (p + l) ≡ b'\n'
    → suc l ≤ m
    → (r1 r2 : Ring) × (user2 : Mem) × (pipe_write i (suc l) user p r ≡ ok (true, r1))
      × (pipe_read i m user1 p1 0 r1 ≡ (suc l, user2, r2))
      × ((j : ℕ) → j < suc l → user2 (p1 + j) ≡ user (p + j))
      × (r2.state.read_ptr ≡ r2.state.write_ptr)
pipe_read-pipe_write i l m user user1 p p1 r pipe empty small newline le =
    let (r1, written, w) =
      pipe_write_lem i (suc l) user p r (λ j lt e. absurd (omega arith)) (omega arith) in
    let end = w.line l refl newline in
    let (user2, r2, taken, t) =
      pipe_read_lem i m (suc l) user1 p1 0 r1 le (omega (arith, end, w.read_ptr))
        (omega (arith, end)) in
    (
      r1,
      r2,
      user2,
      written,
      taken ∙ ap (λ count. (count, user2, r2)) (zero-add (suc l)),
      (λ j lt. t.bytes j lt ∙ ap r1.buffers (omega (arith, w.read_ptr)) ∙ w.bytes j lt),
      omega (arith, t.next, t.write_ptr, end, w.read_ptr),
    )

-- Once its write pointer has passed the end of the buffer, a pipe never looks empty: a read always
-- returns as many bytes as it was asked for, the ones that were never written included.
pub pipe_read_past_end :
    (i n : ℕ) (user : Mem) (p count : ℕ) (r : Ring)
    → r.state.read_ptr < pipe_buf_size
    → pipe_buf_size ≤ r.state.write_ptr
    → (pipe_read i n user p count r).0 ≡ count + n
unfolding pipe_read
pipe_read_past_end i zero user p count r inside past = omega arith
pipe_read_past_end i (suc n) user p count r inside past =
    let c = r.buffers (i * pipe_buf_size + r.state.read_ptr) in
    let q = record (r.state) { read_ptr = (r.state.read_ptr + 1) % pipe_buf_size } in
    ground (
      arith,
      pipe_read_past_end i n (store user p c) (p + 1) (count + 1) (record r { state = q })
          (omega arith) past,
    )
