-- ===== src/Tty/Lines.antt =====
-- Typing a line and reading it, a backspace, and the overflow in raw mode:
-- keyboard_interrupt_handler_inner of kernel/src/interrupt.c against sys_read of kernel/src/syscall.c.
use foxtail.Common.{
  ℕ, ◌+◌, ◌%◌, ◌≤◌, ◌<◌, ◌≡◌, ◌≢◌, refl, sym, ap, ◌∙◌, subst, true, false, List, [], ◌∷◌, ◌++◌,
  arith, length, length-set, get_or, set, get_or-set_self, get_or-set_ne, Mem, zero-add,
}
use foxtail.Kernel.{Tty, TtyMode, mode_scancode, mode_raw, mode_cooked, input_buffer_len}
use foxtail.Tty.{is_cooked, is_raw, key_char, tty_read}
use foxtail.Tty.Input.{IsValid}
use foxtail.Tty.Queue.{
  type_all, IsText, Chars, with_char-Chars, at, not_raw, with_char, typed_one, Typed,
  type_all-Typed, tty_read_empty, tty_read_lem,
}

type_all-append :
    (cs : List ℕ) (c : ℕ) (t : Tty) → type_all (cs ++ c ∷ []) t ≡ (key_char c (type_all cs t)).0
unfolding type_all
type_all-append [] c t = refl
type_all-append (d ∷ cs) c t = type_all-append cs c (key_char d t).0

-- The end of a line makes everything before it readable.
typed_line :
    (t : Tty)
    → is_cooked t.mode ≡ true
    → (key_char b'\n' t).0 ≡ record (with_char b'\n' t) { write_ptr = at t.internal_write_ptr 1 }
unfolding key_char
typed_line t cooked = ground (arith, not_raw t.mode cooked)

-- In cooked mode, with nothing pending, the characters of a line of at most 1022 bytes, without a
-- backspace, cannot be read before its newline is typed; from then on a read of at least the line's
-- length yields exactly the characters typed, in their order, and the newline, also where they go
-- around the end of the buffer, and leaves nothing to read.
pub tty_read-type_line :
    (cs : List ℕ) (n : ℕ) (user : Mem) (p : ℕ) (t : Tty)
    → IsValid t
    → is_cooked t.mode ≡ true
    → t.read_ptr ≡ t.write_ptr
    → t.internal_write_ptr ≡ t.write_ptr
    → IsText cs
    → length cs + 1 < input_buffer_len
    → length cs + 1 ≤ n
    → ((type_all cs t).read_ptr ≡ (type_all cs t).write_ptr)
      × ((user' : Mem) × (t' : Tty) × (tty_read n user p 0 (type_all (cs ++ b'\n' ∷ []) t)
            ≡ (length cs + 1, user', t'))
          × ((j : ℕ) → j < length cs → user' (p + j) ≡ get_or cs j 0)
          × (user' (p + length cs) ≡ b'\n')
          × (t'.read_ptr ≡ t'.write_ptr))
tty_read-type_line cs n user p t v cooked empty start text small le =
    let t1 = type_all cs t in
    let ty = type_all-Typed cs t v cooked text (omega arith) in
    let t2 = record (with_char b'\n' t1) { write_ptr = at t1.internal_write_ptr 1 } in
    let line : type_all (cs ++ b'\n' ∷ []) t ≡ t2 =
      type_all-append cs b'\n' t ∙ typed_line t1 ty.cooked in
    let (user', t', run, r) =
      tty_read_lem n (length cs + 1) user p 0 t2 le small ty.valid.read_ptr
        (omega (arith, ty.next, ty.read_ptr)) in
    (
      ty.read_ptr ∙ empty ∙ sym ty.write_ptr,
      (
        user',
        t',
        ap (tty_read n user p 0) line
            ∙ run
            ∙ ap (λ count. (count, user', t')) (zero-add (length cs + 1)),
        chars t1 ty user' (λ j lt. r.bytes j (omega arith)),
        r.bytes (length cs) (omega arith)
            ∙ ap (λ q. get_or t2.input_buffer q 0)
                (omega (arith, ty.next, ty.read_ptr, ty.valid.internal_write_ptr))
            ∙ get_or-set_self t1.input_buffer t1.internal_write_ptr b'\n' 0
                (omega (arith, ty.valid.size, ty.valid.internal_write_ptr)),
        r.next,
      ),
    )
  where
    chars :
        (t1 : Tty)
        → Typed cs t t1
        → (user' : Mem)
        → ((j : ℕ)
            → j < length cs
            → user' (p + j)
              ≡ get_or (set t1.input_buffer t1.internal_write_ptr b'\n') (at t1.read_ptr j) 0)
        → (j : ℕ) → j < length cs
        → user' (p + j) ≡ get_or cs j 0
    chars t1 ty user' read j lt =
        read j lt
        ∙ get_or-set_ne t1.input_buffer b'\n' 0
            (λ e. absurd (omega (arith, ty.next, ty.read_ptr, v.internal_write_ptr)))
        ∙ ap (λ q. get_or t1.input_buffer q 0) (omega (arith, ty.read_ptr))
        ∙ ty.chars j lt

erased :
    (t : Tty)
    → is_cooked t.mode ≡ true
    → t.internal_write_ptr ≢ t.read_ptr
    → (key_char 8 t).0 ≡ record t {
      internal_write_ptr = (t.internal_write_ptr + 4294967295) % 4294967296 % input_buffer_len;
    }
unfolding key_char
erased t cooked room = ground arith

-- A character that is not the end of a line is taken back by a backspace, in cooked mode and where
-- the buffer is not full: the pointers are as before, and only the element that the next character
-- overwrites differs.
pub erase_char-put_char :
    (c : ℕ) (t : Tty)
    → IsValid t
    → is_cooked t.mode ≡ true
    → c ≢ 8
    → c ≢ b'\n'
    → at t.internal_write_ptr 1 ≢ t.read_ptr
    → (key_char 8 (key_char c t).0).0
      ≡ record t { input_buffer = set t.input_buffer t.internal_write_ptr c }
erase_char-put_char c t v cooked no_back no_line room =
    ap (λ x. (key_char 8 x).0) (typed_one c t cooked no_back no_line)
    ∙ erased (with_char c t) cooked room
    ∙ ap
        (λ q. record t {
          input_buffer = set t.input_buffer t.internal_write_ptr c;
          internal_write_ptr = q;
        })
        (omega (arith, v.internal_write_ptr))

raw_one :
    (c : ℕ) (t : Tty)
    → is_raw t.mode ≡ true
    → (key_char c t).0 ≡ record (with_char c t) { write_ptr = at t.internal_write_ptr 1 }
unfolding key_char
raw_one c t raw = ground (arith, not_cooked t.mode raw)
  where
    not_cooked : (m : TtyMode) → is_raw m ≡ true → is_cooked m ≡ false
    not_cooked mode_raw h = refl
    not_cooked mode_cooked h = cc
    not_cooked mode_scancode h = cc

raw_all :
    (cs : List ℕ) (t : Tty)
    → is_raw t.mode ≡ true
    → t.write_ptr ≡ t.internal_write_ptr
    → t.internal_write_ptr < input_buffer_len
    → ((type_all cs t).write_ptr ≡ at t.internal_write_ptr (length cs))
      × ((type_all cs t).read_ptr ≡ t.read_ptr)
unfolding type_all
raw_all [] t raw same inside = (omega arith, refl)
raw_all (c ∷ cs) t raw same inside =
    let t1 = record (with_char c t) { write_ptr = at t.internal_write_ptr 1 } in
    let (write, read) = raw_all cs t1 raw refl (omega arith) in
    subst
      (λ u.
        ((type_all cs u).write_ptr ≡ at t.internal_write_ptr (length (c ∷ cs)))
        × ((type_all cs u).read_ptr ≡ t.read_ptr))
      (sym (raw_one c t raw)) (write ∙ omega arith, read)

-- The characters that are typed in raw mode, less than a buffer of them.
type_all-Chars :
    (cs : List ℕ) (t : Tty)
    → IsValid t
    → is_raw t.mode ≡ true
    → length cs < input_buffer_len
    → Chars cs t (type_all cs t)
unfolding type_all
type_all-Chars [] t v raw small = record {
  next = omega (arith, v.internal_write_ptr);
  chars = λ j lt. elim lt [ ];
  others = λ m le lt. refl;
}
type_all-Chars (c ∷ cs) t v raw small =
    let t1 = record (with_char c t) { write_ptr = at t.internal_write_ptr 1 } in
    let v1 : IsValid t1 = record {
      size = length-set t.input_buffer t.internal_write_ptr c ∙ v.size;
      read_ptr = v.read_ptr;
      write_ptr = omega arith;
      internal_write_ptr = omega arith;
    } in
    let ch = type_all-Chars cs t1 v1 raw (omega (arith, small)) in
    subst (λ u. Chars (c ∷ cs) t (type_all cs u)) (sym (raw_one c t raw))
      (with_char-Chars c cs t (type_all cs t1) v (omega (arith, small))
        (record { next = ch.next; chars = ch.chars; others = ch.others }))

-- In raw mode, with nothing pending, every character can be read at once: after less than 1024, a
-- read of at least as many yields exactly the characters typed, in their order, without a newline.
-- But nothing checks that there is room: when there are 1024 without a read, the terminal looks
-- empty, and a read yields none of them.
pub tty_read-type_all_overflow :
    (cs ds : List ℕ) (n m : ℕ) (user : Mem) (p : ℕ) (t : Tty)
    → IsValid t
    → is_raw t.mode ≡ true
    → t.read_ptr ≡ t.write_ptr
    → t.write_ptr ≡ t.internal_write_ptr
    → length cs < input_buffer_len
    → length (cs ++ ds) ≡ input_buffer_len
    → length cs ≤ n
    → ((user' : Mem) × (t' : Tty) × (tty_read n user p 0 (type_all cs t) ≡ (length cs, user', t'))
        × ((j : ℕ) → j < length cs → user' (p + j) ≡ get_or cs j 0))
      × (tty_read m user p 0 (type_all (cs ++ ds) t) ≡ (0, user, type_all (cs ++ ds) t))
tty_read-type_all_overflow cs ds n m user p t v raw empty same small full le =
    let (write, read) = raw_all cs t raw same v.internal_write_ptr in
    let (write', read') = raw_all (cs ++ ds) t raw same v.internal_write_ptr in
    let ch = type_all-Chars cs t v raw small in
    let (user', t', run, r) =
      tty_read_lem n (length cs) user p 0 (type_all cs t) le small (omega (arith, read, v.read_ptr))
        (omega (arith, write, read, empty, same)) in
    (
      (
        user',
        t',
        run ∙ ap (λ count. (count, user', t')) (zero-add (length cs)),
        λ j lt.
            r.bytes j lt
            ∙ ap (λ q. get_or (type_all cs t).input_buffer (at q j) 0) (read ∙ empty ∙ same)
            ∙ ch.chars j lt,
      ),
      tty_read_empty m user p 0 (type_all (cs ++ ds) t)
          (omega (arith, write', read', full, empty, same, v.internal_write_ptr)),
    )
