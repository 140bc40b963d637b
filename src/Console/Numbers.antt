-- ===== src/Console/Numbers.antt =====
-- kprint_uint32_dec of kernel/src/kprintf.c: the digits of a number in memory.
pub mod Decimal
pub mod Digits
use foxtail.Common.{ℕ, zero, suc, ◌+◌, ◌-◌, ◌*◌, ◌/◌, ◌%◌, Mem, store, ltb, ◌==◌, if◌then◌else◌}

-- `while (value > 0)` from index `i` on, which puts the lowest digit first: the memory, and how many
-- digits there are in all. 10 rounds do for a `u32` (Decimal).
unfoldable pub digits_loop : ℕ → ℕ → ℕ → Mem → ℕ → Mem × ℕ
digits_loop zero value buf m i = (m, i)
digits_loop (suc fuel) value buf m i =
    let rest = digits_loop fuel (value / 10) buf (store m (buf + i) (b'0' + value % 10)) (i + 1) in
    if value == 0 then (m, i) else rest

-- `while (start < end)` swaps `buf[start]` and `buf[end]`; `rounds` is at most `end - start`.
unfoldable pub reverse_loop : ℕ → Mem → ℕ → ℕ → ℕ → Mem
reverse_loop zero m buf start end = m
reverse_loop (suc rounds) m buf start end =
    let temp = m (buf + start) in
    let swapped = store (store m (buf + start) (m (buf + end))) (buf + end) temp in
    let rest = reverse_loop rounds swapped buf (start + 1) (end - 1) in
    if ltb start end then rest else m

unfoldable pub kprint_uint32_dec : ℕ → Mem → ℕ → Mem
unfolding digits_loop reverse_loop
kprint_uint32_dec value m buf =
    let (m', i) = digits_loop 10 value buf m 0 in
    if value == 0
    then store (store m buf b'0') (buf + 1) 0
    else reverse_loop i (store m' (buf + i) 0) buf 0 (i - 1)
