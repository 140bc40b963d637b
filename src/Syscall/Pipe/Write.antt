-- ===== src/Syscall/Pipe/Write.antt =====
-- The loop of sys_write over a pipe in kernel/src/syscall.c: what it leaves, and where it leaves the
-- pipe's own buffer.
use foxtail.Common.{
  ℕ, zero, suc, ◌+◌, ◌-◌, ◌*◌, ◌%◌, ◌≤◌, ◌<◌, ◌≡◌, ◌≢◌, ◌⊎◌, refl, sym, ap, ◌∙◌, inl, true, false,
  arith, ok, ◌==◌, Mem, add-zero,
}
use foxtail.Kernel.{pipe_buf_size, num_pipe_bufs}
use foxtail.Syscall.Pipe.{Ring, stored, put_byte, pipe_write}

-- The write pointer that belongs to the next `n` bytes never comes before the reader's.
abbrev pub HasRoom : Ring → ℕ → Type 0
HasRoom r n =
    (j : ℕ)
    → j < n
    → (r.state.internal_write_ptr + j + 1) % pipe_buf_size ≢ r.state.read_ptr % pipe_buf_size

-- What a write of the `n` bytes at `p` leaves: each byte behind the one before, from the internal
-- write pointer on, without a wrap around.
pub record Written (i n : ℕ) (user : Mem) (p : ℕ) (r r' : Ring) : Type 0 where
  pub refs : r'.state.num_refs ≡ r.state.num_refs
  pub read_ptr : r'.state.read_ptr ≡ r.state.read_ptr
  pub next : r'.state.internal_write_ptr ≡ r.state.internal_write_ptr + n
  pub bytes :
      (j : ℕ)
      → j < n
      → r'.buffers (i * pipe_buf_size + r.state.internal_write_ptr + j) ≡ user (p + j)
  pub others :
      (q : ℕ)
      → (q < i * pipe_buf_size + r.state.internal_write_ptr)
        ⊎ (i * pipe_buf_size + r.state.internal_write_ptr + n ≤ q)
      → r'.buffers q ≡ r.buffers q
  pub none : n ≡ 0 → r'.state.write_ptr ≡ r.state.write_ptr
  pub line :
      (m : ℕ)
      → n ≡ suc m
      → user (p + m) ≡ b'\n'
      → r'.state.write_ptr ≡ r.state.internal_write_ptr + n

stored_next :
    (i : ℕ) (r : Ring) (c : ℕ)
    → (stored i r c).state.internal_write_ptr ≡ r.state.internal_write_ptr + 1
stored_next i r c = ground arith

stored_kept :
    (i : ℕ) (r : Ring) (c : ℕ)
    → ((stored i r c).state.read_ptr ≡ r.state.read_ptr)
      × ((stored i r c).state.num_refs ≡ r.state.num_refs)
stored_kept i r c = ground arith

stored_line :
    (i : ℕ) (r : Ring) → (stored i r b'\n').state.write_ptr ≡ r.state.internal_write_ptr + 1
stored_line i r = ground arith

-- One byte, and then the others.
Written-step :
    (i n : ℕ) (user : Mem) (p : ℕ) (r r' : Ring)
    → Written i n user (p + 1) (stored i r (user p)) r'
    → Written i (suc n) user p r r'
Written-step i n user p r r' w =
    let first = stored_next i r (user p) in
    record {
      refs = w.refs ∙ (stored_kept i r (user p)).1;
      read_ptr = w.read_ptr ∙ (stored_kept i r (user p)).0;
      next = omega (arith, w.next, first);
      none = λ e. absurd (omega arith);
      bytes = bytes;
      others = others;
      line = line;
    }
  where
    base : ℕ
    base = i * pipe_buf_size + r.state.internal_write_ptr

    bytes : (j : ℕ) → j < suc n → r'.buffers (base + j) ≡ user (p + j)
    bytes zero lt =
        ground
          (arith, add-zero p, w.others (base + 0) (inl (omega (arith, stored_next i r (user p)))))
    bytes (suc j) lt = sym (ap r'.buffers (shift j)) ∙ w.bytes j (omega arith) ∙ ap user (along j)
      where
        shift :
            (j : ℕ)
            → i * pipe_buf_size + (stored i r (user p)).state.internal_write_ptr + j ≡ base + suc j
        shift j = omega (arith, stored_next i r (user p))

        along : (j : ℕ) → p + 1 + j ≡ p + suc j
        along j = omega arith

    others : (q : ℕ) → (q < base) ⊎ (base + suc n ≤ q) → r'.buffers q ≡ r.buffers q
    others q h = ground (arith, w.others q, stored_next i r (user p))

    line :
        (m : ℕ)
        → suc n ≡ suc m
        → user (p + m) ≡ b'\n'
        → r'.state.write_ptr ≡ r.state.internal_write_ptr + suc n
    line zero e h =
        w.none (omega arith)
        ∙ ap (λ c. (stored i r c).state.write_ptr) (ap user (sym (add-zero p)) ∙ h)
        ∙ stored_line i r
        ∙ omega arith
    line (suc m) e h =
        w.line m (omega arith) (ap user (omega arith) ∙ h) ∙ omega (arith, stored_next i r (user p))

-- The next `n` bytes of pipe `i` lie in `pipe_buffers`.
abbrev pub IsInside : ℕ → ℕ → Ring → Type 0
IsInside i n r = i * pipe_buf_size + r.state.internal_write_ptr + n ≤ num_pipe_bufs * pipe_buf_size

put_byte-stored :
    (i n : ℕ) (r : Ring) (c : ℕ) → IsInside i (suc n) r → put_byte i r c ≡ ok (stored i r c)
unfolding put_byte
put_byte-stored i n r c inside = ground arith

-- While there is room, and the bytes stay inside of `pipe_buffers`, a write takes every byte.
pub pipe_write_lem :
    (i n : ℕ) (user : Mem) (p : ℕ) (r : Ring)
    → HasRoom r n
    → IsInside i n r
    → (r' : Ring) × (pipe_write i n user p r ≡ ok (true, r')) × Written i n user p r r'
unfolding pipe_write
pipe_write_lem i zero user p r room inside = (
  r,
  refl,
  record {
    refs = refl;
    read_ptr = refl;
    next = omega arith;
    none = λ e. refl;
    bytes = λ j lt. elim lt [ ];
    others = λ q h. refl;
    line = λ m e h. absurd (omega arith);
  },
)
pipe_write_lem i (suc n) user p r room inside =
    let r1 = stored i r (user p) in
    let next = stored_next i r (user p) in
    let (kept, refs) = stored_kept i r (user p) in
    let (r', run, w) =
      pipe_write_lem i n user (p + 1) r1
        (λ j lt. rw (next, kept) (λ e. room (suc j) (omega arith) (omega arith)))
        (omega (arith, inside, next)) in
    let free : ((r.state.internal_write_ptr + 1) % pipe_buf_size
          == r.state.read_ptr % pipe_buf_size)
        ≡ false =
      ground (arith, room 0) in
    (r', rw (free, put_byte-stored i n r (user p) inside) run, Written-step i n user p r r' w)

-- A write that has room but passes the end of the buffer of a pipe that is not the last one, without
-- passing the end of all buffers, succeeds: each of its bytes that is less than a buffer's size
-- behind that end is in the buffer of the next pipe, whatever was there.
pub pipe_write_overrun :
    (i n j : ℕ) (user : Mem) (p : ℕ) (r : Ring)
    → HasRoom r n
    → IsInside i n r
    → i + 1 < num_pipe_bufs
    → j < n
    → pipe_buf_size ≤ r.state.internal_write_ptr + j
    → r.state.internal_write_ptr + j < 2 * pipe_buf_size
    → (r' : Ring) × (o : ℕ) × (pipe_write i n user p r ≡ ok (true, r'))
      × (o < pipe_buf_size)
      × (r.state.internal_write_ptr + j ≡ pipe_buf_size + o)
      × (r'.buffers ((i + 1) * pipe_buf_size + o) ≡ user (p + j))
pipe_write_overrun i n j user p r room inside next lt past near =
    let (r', run, w) = pipe_write_lem i n user p r room inside in
    (
      r',
      r.state.internal_write_ptr + j - pipe_buf_size,
      run,
      omega arith,
      omega arith,
      ap r'.buffers (omega arith) ∙ w.bytes j lt,
    )
