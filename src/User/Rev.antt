-- ===== src/User/Rev.antt =====
-- user/src/rev.c, which turns each line of its input around.
pub mod Ranges
pub mod Lines
use foxtail.Common.{
  ℕ, zero, suc, ◌+◌, ◌-◌, List, [], ◌∷◌, ◌++◌, Mem, store, ltb, leb, ◌==◌, if◌then◌else◌,
}
use foxtail.Syscall.Transfer.{bytes_at}

-- `line`, `line_len`, and what is written.
pub record Rev : Type 0 where
  pub line : Mem
  pub line_len : ℕ
  pub output : List ℕ

-- BUF_SIZE
abbrev pub buf_size : ℕ
buf_size = 256

-- `while (l < r)` with `r` the last index; `rounds` is at least half of the distance.
unfoldable pub reverse_loop : ℕ → Mem → ℕ → ℕ → Mem
reverse_loop zero s l r = s
reverse_loop (suc rounds) s l r =
    let tmp = s l in
    let rest = reverse_loop rounds (store (store s l (s r)) r tmp) (l + 1) (r - 1) in
    if ltb l r then rest else s

-- Here `l` is 0. For an empty range the loop does not run, since `r` is -1.
unfoldable pub reverse_range : Mem → ℕ → Mem
unfolding reverse_loop
reverse_range s zero = s
reverse_range s (suc r) = reverse_loop r s 0 r

-- The line is turned around and written.
unfoldable pub write_line : Rev → Rev
unfolding reverse_range
write_line st =
    let line = reverse_range st.line st.line_len in
    record st {
      line = line;
      line_len = 0;
      output = st.output ++ (bytes_at line st.line_len 0 ++ b'\n' ∷ []);
    }

unfoldable pub take_byte : ℕ → Rev → Rev
unfolding write_line
take_byte c st =
    if c == b'\n'
    then write_line st
    else if ltb st.line_len (buf_size - 1)
    then record st { line = store st.line st.line_len c; line_len = st.line_len + 1 }
    else st

-- The bytes of one read, and all reads; a read without bytes ends them.
unfoldable pub take_bytes : List ℕ → Rev → Rev
unfolding take_byte
take_bytes [] st = st
take_bytes (c ∷ bytes) st = take_bytes bytes (take_byte c st)

unfoldable pub take_reads : List (List ℕ) → Rev → Rev
unfolding take_bytes
take_reads [] st = st
take_reads ([] ∷ reads) st = st
take_reads ((c ∷ bytes) ∷ reads) st = take_reads reads (take_bytes (c ∷ bytes) st)

-- What the program writes; a last line without a newline counts.
unfoldable pub rev : Mem → List (List ℕ) → List ℕ
unfolding take_reads write_line
rev line reads =
    let st = take_reads reads (record { line = line; line_len = 0; output = [] }) in
    (if ltb 0 st.line_len then write_line st else st).output
