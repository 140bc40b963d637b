-- ===== src/Tty/Queue.antt =====
-- The terminal's buffer as a queue of lines: characters typed in cooked mode, and what sys_read takes.
use foxtail.Common.{
  ℕ, zero, suc, ◌+◌, ◌%◌, ◌≤◌, ◌<◌, ◌≡◌, ◌≢◌, refl, sym, ap, ◌∙◌, true, false, List, [], ◌∷◌, arith,
  length, get_or, set, length-set, get_or-set_self, get_or-set_ne, Mem, store, store_self, add-zero,
}
use foxtail.Kernel.{Tty, TtyMode, mode_scancode, mode_raw, mode_cooked, input_buffer_len}
use foxtail.Tty.{is_cooked, is_raw, key_char, tty_read}
use foxtail.Tty.Input.{IsValid}

-- Characters typed one after another.
unfoldable pub type_all : List ℕ → Tty → Tty
unfolding key_char
type_all [] t = t
type_all (c ∷ cs) t = type_all cs (key_char c t).0

-- Neither a backspace nor the end of a line.
abbrev pub IsText : List ℕ → Type 0
IsText [] = Unit
IsText (c ∷ cs) = (c ≢ 8) × (c ≢ b'\n') × IsText cs

abbrev pub at : ℕ → ℕ → ℕ
at ptr j = (ptr + j) % input_buffer_len

-- What typing `cs` leaves: the characters from the internal write pointer on, around the end of the
-- buffer, and nothing to read yet.
pub record Typed (cs : List ℕ) (t t' : Tty) : Type 0 where
  pub valid : IsValid t'
  pub cooked : is_cooked t'.mode ≡ true
  pub read_ptr : t'.read_ptr ≡ t.read_ptr
  pub write_ptr : t'.write_ptr ≡ t.write_ptr
  pub next : t'.internal_write_ptr ≡ at t.internal_write_ptr (length cs)
  pub chars :
      (j : ℕ) → j < length cs → get_or t'.input_buffer (at t.internal_write_ptr j) 0 ≡ get_or cs j 0
  pub others :
      (m : ℕ)
      → length cs ≤ m
      → m < input_buffer_len
      → get_or t'.input_buffer (at t.internal_write_ptr m) 0
        ≡ get_or t.input_buffer (at t.internal_write_ptr m) 0

pub not_raw : (m : TtyMode) → is_cooked m ≡ true → is_raw m ≡ false
not_raw mode_cooked h = refl
not_raw mode_raw h = cc
not_raw mode_scancode h = cc

-- A character of the text, in cooked mode.
abbrev pub with_char : ℕ → Tty → Tty
with_char c t = record t {
  input_buffer = set t.input_buffer t.internal_write_ptr c;
  internal_write_ptr = at t.internal_write_ptr 1;
}

pub typed_one :
    (c : ℕ) (t : Tty)
    → is_cooked t.mode ≡ true
    → c ≢ 8
    → c ≢ b'\n'
    → (key_char c t).0 ≡ with_char c t
unfolding key_char
typed_one c t cooked no_back no_line = ground (arith, not_raw t.mode cooked)

-- The characters stand from the internal write pointer on, around the end of the buffer.
pub record Chars (cs : List ℕ) (t t' : Tty) : Type 0 where
  pub next : t'.internal_write_ptr ≡ at t.internal_write_ptr (length cs)
  pub chars :
      (j : ℕ) → j < length cs → get_or t'.input_buffer (at t.internal_write_ptr j) 0 ≡ get_or cs j 0
  pub others :
      (m : ℕ)
      → length cs ≤ m
      → m < input_buffer_len
      → get_or t'.input_buffer (at t.internal_write_ptr m) 0
        ≡ get_or t.input_buffer (at t.internal_write_ptr m) 0

pub with_char-Chars :
    (c : ℕ) (cs : List ℕ) (t t' : Tty)
    → IsValid t
    → length cs + 1 < input_buffer_len
    → Chars cs (with_char c t) t'
    → Chars (c ∷ cs) t t'
with_char-Chars c cs t t' v small ty = record {
  next = ty.next ∙ omega arith;
  chars = chars;
  others = others;
}
  where
    along : (j : ℕ) → at (at t.internal_write_ptr 1) j ≡ at t.internal_write_ptr (suc j)
    along j = omega arith

    here : at t.internal_write_ptr 0 ≡ t.internal_write_ptr
    here = omega (arith, v.internal_write_ptr)

    before : at (at t.internal_write_ptr 1) 1023 ≡ t.internal_write_ptr
    before = omega (arith, v.internal_write_ptr)

    chars :
        (j : ℕ)
        → j < length (c ∷ cs)
        → get_or t'.input_buffer (at t.internal_write_ptr j) 0 ≡ get_or (c ∷ cs) j 0
    chars zero lt =
        ap (λ q. get_or t'.input_buffer q 0) (here ∙ sym before)
        ∙ ty.others 1023 (omega arith) (omega arith)
        ∙ ap (λ q. get_or (set t.input_buffer t.internal_write_ptr c) q 0) before
        ∙ get_or-set_self t.input_buffer t.internal_write_ptr c 0
            (omega (arith, v.size, v.internal_write_ptr))
    chars (suc j) lt =
        ap (λ q. get_or t'.input_buffer q 0) (sym (along j)) ∙ ty.chars j (omega arith)

    others :
        (m : ℕ)
        → length (c ∷ cs) ≤ m
        → m < input_buffer_len
        → get_or t'.input_buffer (at t.internal_write_ptr m) 0
          ≡ get_or t.input_buffer (at t.internal_write_ptr m) 0
    others zero le lt = absurd (omega arith)
    others (suc m) le lt =
        ap (λ q. get_or t'.input_buffer q 0) (sym (along m))
        ∙ ty.others m (omega arith) (omega arith)
        ∙ ap (λ q. get_or (set t.input_buffer t.internal_write_ptr c) q 0) (along m)
        ∙ get_or-set_ne t.input_buffer c 0 (λ e. absurd (omega (arith, v.internal_write_ptr)))

with_char-Typed :
    (c : ℕ) (cs : List ℕ) (t t' : Tty)
    → IsValid t
    → length cs + 1 < input_buffer_len
    → Typed cs (with_char c t) t'
    → Typed (c ∷ cs) t t'
with_char-Typed c cs t t' v small ty =
    let ch =
      with_char-Chars c cs t t' v small
        (record { next = ty.next; chars = ty.chars; others = ty.others }) in
    record {
      valid = ty.valid;
      cooked = ty.cooked;
      read_ptr = ty.read_ptr;
      write_ptr = ty.write_ptr;
      next = ch.next;
      chars = ch.chars;
      others = ch.others;
    }

pub type_all-Typed :
    (cs : List ℕ) (t : Tty)
    → IsValid t
    → is_cooked t.mode ≡ true
    → IsText cs
    → length cs < input_buffer_len
    → Typed cs t (type_all cs t)
unfolding type_all
type_all-Typed [] t v cooked text small = record {
  valid = v;
  cooked = cooked;
  read_ptr = refl;
  write_ptr = refl;
  next = omega (arith, v.internal_write_ptr);
  chars = λ j lt. elim lt [ ];
  others = λ m le lt. refl;
}
type_all-Typed (c ∷ cs) t v cooked (no_back, no_line, text) small =
    rw (typed_one c t cooked no_back no_line) (
      with_char-Typed c cs t (type_all cs (with_char c t)) v (omega arith)
        (type_all-Typed cs (with_char c t) v' cooked text (omega arith)))
  where
    v' : IsValid (with_char c t)
    v' = record {
      size = length-set t.input_buffer t.internal_write_ptr c ∙ v.size;
      read_ptr = v.read_ptr;
      write_ptr = v.write_ptr;
      internal_write_ptr = omega arith;
    }

-- What a read of everything leaves.
pub record Read (m : ℕ) (p : ℕ) (user user' : Mem) (t t' : Tty) : Type 0 where
  pub next : t'.read_ptr ≡ t'.write_ptr
  pub bytes : (j : ℕ) → j < m → user' (p + j) ≡ get_or t.input_buffer (at t.read_ptr j) 0
  pub others : (q : ℕ) → q < p → user' q ≡ user q

pub tty_read_empty :
    (n : ℕ) (user : Mem) (p count : ℕ) (t : Tty)
    → t.read_ptr ≡ t.write_ptr
    → tty_read n user p count t ≡ (count, user, t)
unfolding tty_read
tty_read_empty zero user p count t e = refl
tty_read_empty (suc n) user p count t e = ground arith

pub tty_read_lem :
    (n m : ℕ) (user : Mem) (p count : ℕ) (t : Tty)
    → m ≤ n
    → m < input_buffer_len
    → t.read_ptr < input_buffer_len
    → t.write_ptr ≡ at t.read_ptr m
    → (user' : Mem) × (t' : Tty) × (tty_read n user p count t ≡ (count + m, user', t'))
      × Read m p user user' t t'
unfolding tty_read
tty_read_lem n zero user p count t le small inside there =
    let empty : t.read_ptr ≡ t.write_ptr = omega arith in
    (
      user,
      t,
      tty_read_empty n user p count t empty ∙ ap (λ x. (x, user, t)) (sym (add-zero count)),
      record { next = empty; bytes = λ j lt. elim lt [ ]; others = λ q lt. refl },
    )
tty_read_lem zero (suc m) user p count t le small inside there = absurd (omega arith)
tty_read_lem (suc n) (suc m) user p count t le small inside there =
    let c = get_or t.input_buffer t.read_ptr 0 in
    let t1 = record t { read_ptr = at t.read_ptr 1 } in
    let (user', t', run, r) =
      tty_read_lem n m (store user p c) (p + 1) (count + 1) t1 (omega arith) (omega arith)
        (omega arith) (omega arith) in
    (
      user',
      t',
      ground (arith, run),
      record {
        next = r.next;
        bytes = bytes user' t' r;
        others = λ a lt. ground (arith, r.others a (omega arith));
      },
    )
  where
    bytes :
        (user' : Mem) (t' : Tty)
        → Read m
            (p + 1)
            (store user p (get_or t.input_buffer t.read_ptr 0))
            user'
            (record t { read_ptr = at t.read_ptr 1 })
            t'
        → (j : ℕ) → j < suc m
        → user' (p + j) ≡ get_or t.input_buffer (at t.read_ptr j) 0
    bytes user' t' r zero lt =
        ap user' (add-zero p)
        ∙ r.others p (omega arith)
        ∙ store_self user p (get_or t.input_buffer t.read_ptr 0)
        ∙ ap (λ q. get_or t.input_buffer q 0) (omega arith)
    bytes user' t' r (suc j) lt =
        ap user' (omega arith)
        ∙ r.bytes j (omega arith)
        ∙ ap (λ q. get_or t.input_buffer q 0) (omega arith)
