-- ===== src/Syscall/Pipe.antt =====
-- sys_pipe, the pipe branches of sys_write and sys_read, and the two terminal mode calls of
-- kernel/src/syscall.c.
pub mod Fifo
pub mod Write
use foxtail.Common.{
  ℕ, zero, suc, ◌+◌, ◌*◌, ◌%◌, Option, none, some, Bool, true, false, List, [], ◌∷◌, Mem, store,
  Outcome, ok, fault, ◌>>=◌, leb, ltb, not, ◌==◌, ◌||◌, if◌then◌else◌,
}
use foxtail.Kernel.{
  Kernel, Regs, Reply, Call, returns, yields, Proc, Fd, fd_unmapped, fd_pipe, pipe_no, PipeData,
  fail, get_current_proc, set_current_proc, set_fd, set_pipe, pipe_at, is_valid_user_addr,
  write_u32, same_status, pipe_buf_size, num_pipe_bufs, minus_one, waiting_on_pipe,
}
use foxtail.Syscall.Open.{first_unmapped}

-- The second unmapped descriptor, behind the first one at `i`.
second_unmapped : List Fd → ℕ → Option ℕ
unfolding first_unmapped
second_unmapped [] i = none
second_unmapped (d ∷ fds) i =
    if same_status d.status fd_unmapped
    then first_unmapped fds (i + 1)
    else second_unmapped fds (i + 1)

-- `for (i = 0; i < NUM_PIPE_BUFS; i++) if (pipe_data[i].num_refs == 0)`, from `i` on.
first_unused_pipe : List PipeData → ℕ → Option ℕ
first_unused_pipe [] i = none
first_unused_pipe (q ∷ pipes) i =
    if q.num_refs == 0 then some i else first_unused_pipe pipes (i + 1)

-- The descriptor of an end: mode 2 reads and mode 4 writes.
abbrev pipe_end : ℕ → ℕ → Fd
pipe_end i mode = record { status = fd_pipe; mode = mode; target = pipe_no i; ptr = 0 }

pub fresh_pipe : Kernel → Proc → ℕ → ℕ → ℕ → ℕ → Reply
fresh_pipe k p addr r w i =
    let k1 =
      set_pipe k i (record { read_ptr = 0; write_ptr = 0; internal_write_ptr = 0; num_refs = 2 }) in
    let k2 = set_fd k1 p r (pipe_end i 2) in
    get_current_proc k2 >>= λ p'.
    let k3 = set_fd k2 p' w (pipe_end i 4) in
    ok (0, record k3 { user = write_u32 (write_u32 k3.user addr r) (addr + 4) w })

pub sys_pipe : Regs → Kernel → Reply
unfolding first_unmapped second_unmapped first_unused_pipe fresh_pipe
sys_pipe s k =
    if not (is_valid_user_addr s.ebx)
    then fail k
    else get_current_proc k >>= λ p. elim (first_unmapped p.fds 0) [
      | none ↦ fail k
      | some r ↦ elim (second_unmapped p.fds 0) [
        | none ↦ fail k
        | some w ↦ elim (first_unused_pipe k.pipes 0) [
          | none ↦ fail k
          | some i ↦ fresh_pipe k p s.ebx r w i
        ]
      ]
    ]

-- A pipe with its buffer in the flat array: pipe `i` has the addresses from `i * PIPE_BUF_SIZE` on.
pub record Ring : Type 0 where
  pub state : PipeData
  pub buffers : Mem

-- `internal_write_ptr = (internal_write_ptr) + 1 % PIPE_BUF_SIZE`: `%` binds before `+`.
abbrev pub stored : ℕ → Ring → ℕ → Ring
stored i r c =
    let next = r.state.internal_write_ptr + 1 % pipe_buf_size in
    let q = record (r.state) { internal_write_ptr = next } in
    record {
      state = if c == b'\n' then record q { write_ptr = next } else q;
      buffers = store r.buffers (i * pipe_buf_size + r.state.internal_write_ptr) c;
    }

-- A byte of the buffer is written; behind the last buffer of `pipe_buffers` this is a fault.
unfoldable pub put_byte : ℕ → Ring → ℕ → Outcome Ring
put_byte i r c =
    if leb (num_pipe_bufs * pipe_buf_size) (i * pipe_buf_size + r.state.internal_write_ptr)
    then fault
    else ok (stored i r c)

-- The loop of sys_write over the `n` bytes at `p`; false if it broke off on a full buffer.
pub pipe_write : ℕ → ℕ → Mem → ℕ → Ring → Outcome (Bool × Ring)
unfolding put_byte
pipe_write i zero user p r = ok (true, r)
pipe_write i (suc n) user p r =
    let rest = put_byte i r (user p) >>= pipe_write i n user (p + 1) in
    if (r.state.internal_write_ptr + 1) % pipe_buf_size == r.state.read_ptr % pipe_buf_size
    then ok (false, r)
    else rest

-- The loop of sys_read: up to `n` bytes to `p`, and how many.
pub pipe_read : ℕ → ℕ → Mem → ℕ → ℕ → Ring → ℕ × Mem × Ring
pipe_read i zero user p count r = (count, user, r)
pipe_read i (suc n) user p count r =
    let c = r.buffers (i * pipe_buf_size + r.state.read_ptr) in
    let q = record (r.state) { read_ptr = (r.state.read_ptr + 1) % pipe_buf_size } in
    let rest = pipe_read i n (store user p c) (p + 1) (count + 1) (record r { state = q }) in
    if r.state.read_ptr == r.state.write_ptr then (count, user, r) else rest

abbrev pub ring_of : Kernel → PipeData → Ring
ring_of k q = record { state = q; buffers = k.pipe_buffers }

-- The kernel with the pipe's new state and buffer.
abbrev pub with_ring : Kernel → ℕ → Ring → Kernel
with_ring k i r = record (set_pipe k i r.state) { pipe_buffers = r.buffers }

-- The FD_PIPE branch of sys_write. A write of every byte leaves `eax` as it was: the call's code, 0.
pub write_pipe : Regs → Kernel → ℕ → Reply
unfolding pipe_write
write_pipe s k i = pipe_at k i >>= λ q.
    if ltb q.num_refs 2
    then fail k
    else pipe_write i s.edx k.user s.ecx (ring_of k q) >>= λ (done, r).
        ok (if done then s.eax else minus_one, with_ring k i r)

-- The FD_PIPE branch of sys_read behind its wait.
pub finish_read_pipe : Regs → ℕ → Kernel → Reply
unfolding pipe_read
finish_read_pipe s i k = pipe_at k i >>= λ q.
    let (count, user, r) = pipe_read i s.edx k.user s.ecx 0 (ring_of k q) in
    ok (count, record (with_ring k i r) { user = user })

abbrev pub bind_call {ℓ} : {A : Type ℓ} → Outcome A → (A → Call) → Call
bind_call (ok a) f = f a
bind_call Outcome.panic f = returns Outcome.panic
bind_call Outcome.fault f = returns Outcome.fault
bind_call Outcome.spin f = returns Outcome.spin
bind_call Outcome.beyond f = returns Outcome.beyond

-- The whole branch: with nothing to read it fails if the other end is closed, and waits otherwise.
pub read_pipe : Regs → Kernel → Proc → ℕ → Call
unfolding finish_read_pipe
read_pipe s k p i = bind_call (pipe_at k i) λ q.
    if q.read_ptr == q.write_ptr
    then (if ltb q.num_refs 2
        then returns (fail k)
        else yields (set_current_proc k (record p { status = waiting_on_pipe; waiting_on = i }))
            (finish_read_pipe s i))
    else returns (finish_read_pipe s i k)
