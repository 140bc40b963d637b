-- ===== src/Tty/Input.antt =====
-- The terminal's pointers and its buffer: keyboard_interrupt_handler_inner of
-- kernel/src/interrupt.c.
use foxtail.Common.{
  ℕ, ◌<◌, ◌≡◌, ◌∙◌, inl, inr, not, ◌&&◌, ◌||◌, Option, none, some, arith, length, length-set,
  get_or, Bool-cases, ltb, ◌==◌,
}
use foxtail.Kernel.{Tty, input_buffer_len}
use foxtail.Tty.Keys.{kbd_us}
use foxtail.Tty.{
  is_scancode, is_cooked, is_raw, key_scancode, shift_keys, put_char, erase_char, key_char, char_of,
  keyboard_interrupt,
}

-- The buffer has its 1024 elements, and each pointer stands at one of them.
pub record IsValid (t : Tty) : Type 0 where
  pub size : length t.input_buffer ≡ input_buffer_len
  pub read_ptr : t.read_ptr < input_buffer_len
  pub write_ptr : t.write_ptr < input_buffer_len
  pub internal_write_ptr : t.internal_write_ptr < input_buffer_len

key_scancode-IsValid : (code : ℕ) (t : Tty) → IsValid t → IsValid (key_scancode code t)
unfolding key_scancode
key_scancode-IsValid code t v = record {
  size = length-set t.input_buffer t.internal_write_ptr code ∙ v.size;
  read_ptr = ground (arith, v.read_ptr);
  write_ptr = omega arith;
  internal_write_ptr = omega arith;
}

shift_keys-IsValid : (code : ℕ) (t : Tty) → IsValid t → IsValid (shift_keys code t)
unfolding shift_keys
shift_keys-IsValid code t v = record {
  size = ground (arith, v.size);
  read_ptr = ground (arith, v.read_ptr);
  write_ptr = ground (arith, v.write_ptr);
  internal_write_ptr = ground (arith, v.internal_write_ptr);
}

pub put_char-IsValid : (c : ℕ) (t : Tty) → IsValid t → IsValid (put_char c t)
unfolding put_char
put_char-IsValid c t v = record {
  size = length-set t.input_buffer t.internal_write_ptr c ∙ v.size;
  read_ptr = v.read_ptr;
  write_ptr = elim (Bool-cases (is_raw t.mode || c == b'\n')) [
    | inl there ↦ rw there (omega arith)
    | inr not_yet ↦ rw not_yet v.write_ptr
  ];
  internal_write_ptr = omega arith;
}

erase_char-IsValid : (t : Tty) → IsValid t → IsValid (erase_char t).0
unfolding erase_char
erase_char-IsValid t v = elim (Bool-cases (t.read_ptr == t.internal_write_ptr)) [
  | inl empty ↦ rw empty v
  | inr some_left ↦ rw some_left (record {
    size = v.size;
    read_ptr = v.read_ptr;
    write_ptr = v.write_ptr;
    internal_write_ptr = omega arith;
  })
]

key_char-IsValid : (c : ℕ) (t : Tty) → IsValid t → IsValid (key_char c t).0
unfolding key_char
key_char-IsValid c t v = elim (Bool-cases (is_cooked t.mode)) [
  | inl cooked ↦ elim (Bool-cases (c == 8)) [
    | inl back ↦ rw (cooked, back) (erase_char-IsValid t v)
    | inr other ↦ rw (cooked, other) (put_char-IsValid c t v)
  ]
  | inr raw ↦ rw raw (put_char-IsValid c t v)
]

-- Whatever the keyboard sends and whatever the mode is, the keyboard interrupt keeps every pointer
-- of the terminal inside its buffer.
pub keyboard_interrupt-IsValid :
    (code : Option ℕ) (t : Tty) → IsValid t → IsValid (keyboard_interrupt code t).0
unfolding keyboard_interrupt
keyboard_interrupt-IsValid none t v = v
keyboard_interrupt-IsValid (some code) t v = elim (Bool-cases (is_scancode t.mode)) [
  | inl scan ↦ rw scan (key_scancode-IsValid code t v)
  | inr other ↦
      let v' = shift_keys-IsValid code t v in
      elim (Bool-cases (ltb code 128 && not (get_or kbd_us code 0 == 0))) [
        | inl key ↦ elim (Bool-cases (char_of code (shift_keys code t) == 0)) [
          | inl nothing ↦ rw (other, key, nothing) v'
          | inr char ↦
              rw (other, key, char)
                (key_char-IsValid (char_of code (shift_keys code t)) (shift_keys code t) v')
        ]
        | inr dead ↦ rw (other, dead) v'
      ]
]
