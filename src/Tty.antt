-- ===== src/Tty.antt =====
-- The terminal: the keyboard interrupt of kernel/src/interrupt.c, which fills the input buffer, and
-- the FD_STDIN branch of sys_read and the mode calls of kernel/src/syscall.c.
mod Keys
pub mod Input
pub mod Queue
pub mod Lines
use foxtail.Common.{
  ℕ, zero, suc, ◌+◌, ◌-◌, ◌%◌, Bool, true, false, Option, none, some, List, [], ◌∷◌, get_or, set,
  Mem, store, Outcome, ok, ltb, leb, not, ◌==◌, ◌&&◌, ◌||◌, if◌then◌else◌,
}
use foxtail.Kernel.{
  Kernel, Regs, Reply, Call, returns, yields, Proc, fail, set_current_proc, Tty, TtyMode,
  mode_scancode, mode_raw, mode_cooked, input_buffer_len, waiting_on_stdin, minus_one,
}
use Keys.{kbd_us, kbd_shift_us}

abbrev pub is_scancode : TtyMode → Bool
is_scancode mode_scancode = true
is_scancode _ = false

abbrev pub is_cooked : TtyMode → Bool
is_cooked mode_cooked = true
is_cooked _ = false

abbrev pub is_raw : TtyMode → Bool
is_raw mode_raw = true
is_raw _ = false

-- TTY_MODE_SCANCODE: every code goes to the buffer, over the oldest if it is full.
unfoldable pub key_scancode : ℕ → Tty → Tty
key_scancode code t =
    let next = (t.internal_write_ptr + 1) % input_buffer_len in
    record t {
      input_buffer = set t.input_buffer t.internal_write_ptr code;
      internal_write_ptr = next;
      write_ptr = next;
      read_ptr =
          if (next + 1) % input_buffer_len == t.read_ptr % input_buffer_len
          then (t.read_ptr + 1) % input_buffer_len
          else t.read_ptr;
    }

-- The codes of the shift keys, pressed and released.
unfoldable pub shift_keys : ℕ → Tty → Tty
shift_keys code t =
    if code == 0x2A
    then record t { left_shift = true }
    else if code == 0x36
    then record t { right_shift = true }
    else if code == 0xAA
    then record t { left_shift = false }
    else if code == 0xB6
    then record t { right_shift = false }
    else t

-- `input_buffer[internal_write_ptr] = c`, and the characters up to there are readable in raw mode
-- and at the end of a line.
unfoldable pub put_char : ℕ → Tty → Tty
put_char c t =
    let next = (t.internal_write_ptr + 1) % input_buffer_len in
    record t {
      input_buffer = set t.input_buffer t.internal_write_ptr c;
      internal_write_ptr = next;
      write_ptr = if is_raw t.mode || c == b'\n' then next else t.write_ptr;
    }

-- `'\b'` in cooked mode; the subtraction is in `u32`. The list is what is printed.
unfoldable pub erase_char : Tty → Tty × List ℕ
erase_char t = if t.read_ptr == t.internal_write_ptr then (t, []) else (
  record t {
    internal_write_ptr = (t.internal_write_ptr + 4294967295) % 4294967296 % input_buffer_len;
  },
  8 ∷ [],
)

unfoldable pub key_char : ℕ → Tty → Tty × List ℕ
unfolding put_char erase_char
key_char c t =
    if is_cooked t.mode
    then (if c == 8 then erase_char t else (put_char c t, c ∷ []))
    else (put_char c t, [])

unfoldable pub char_of : ℕ → Tty → ℕ
char_of code t =
    if t.left_shift || t.right_shift then get_or kbd_shift_us code 0 else get_or kbd_us code 0

-- The handler, for a keyboard controller that has a scancode ready or none.
unfoldable pub keyboard_interrupt : Option ℕ → Tty → Tty × List ℕ
unfolding key_scancode shift_keys key_char char_of
keyboard_interrupt none t = (t, [])
keyboard_interrupt (some code) t =
    if is_scancode t.mode
    then (key_scancode code t, [])
    else (let t' = shift_keys code t in
        if ltb code 128 && not (get_or kbd_us code 0 == 0)
        then (let c = char_of code t' in if c == 0 then (t', []) else key_char c t')
        else (t', []))

-- The loop of sys_read over the input buffer: up to `n` bytes to `p`, and how many.
unfoldable pub tty_read : ℕ → Mem → ℕ → ℕ → Tty → ℕ × Mem × Tty
tty_read zero user p count t = (count, user, t)
tty_read (suc n) user p count t =
    let c = get_or t.input_buffer t.read_ptr 0 in
    let rest =
      tty_read n (store user p c) (p + 1) (count + 1)
        (record t { read_ptr = (t.read_ptr + 1) % input_buffer_len }) in
    if t.read_ptr == t.write_ptr then (count, user, t) else rest

unfoldable pub finish_read_stdin : Regs → Kernel → Reply
unfolding tty_read
finish_read_stdin s k =
    let (count, user, t) = tty_read s.edx k.user s.ecx 0 k.tty in
    ok (count, record k { user = user; tty = t })

-- The FD_STDIN branch of sys_read: with nothing to read it waits first.
unfoldable pub read_stdin : Regs → Kernel → Proc → Call
unfolding finish_read_stdin
read_stdin s k p =
    if k.tty.read_ptr == k.tty.write_ptr
    then yields (set_current_proc k (record p { status = waiting_on_stdin })) (finish_read_stdin s)
    else returns (finish_read_stdin s k)

abbrev pub tty_mode_code : TtyMode → ℕ
tty_mode_code mode_scancode = 0
tty_mode_code mode_raw = 1
tty_mode_code mode_cooked = 2

set_mode : Kernel → TtyMode → Reply
set_mode k m = ok (0, record k { tty = record (k.tty) { mode = m } })

-- NUM_TTY_MODES is 3.
unfoldable pub sys_set_tty_mode : Regs → Kernel → Reply
unfolding set_mode
sys_set_tty_mode s k =
    if leb 3 s.ebx
    then fail k
    else if s.ebx == 0
    then set_mode k mode_scancode
    else if s.ebx == 1
    then set_mode k mode_raw
    else set_mode k mode_cooked

unfoldable pub sys_get_tty_mode : Regs → Kernel → Reply
sys_get_tty_mode s k = ok (tty_mode_code k.tty.mode, k)
