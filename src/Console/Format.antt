-- ===== src/Console/Format.antt =====
-- vkprintf of kernel/src/kprintf.c, and its numbers in hexadecimal. A missing argument, or one of
-- another kind, is a fault.
use foxtail.Common.{
  ℕ, zero, suc, ◌+◌, ◌-◌, ◌/◌, ◌%◌, ◌^◌, ◌≡◌, inl, inr, refl, sym, ap, ◌∙◌, subst, Bool, true,
  false, List, [], ◌∷◌, ◌++◌, arith, Mem, store, ltb, ◌==◌, if◌then◌else◌, Outcome, ok, fault, spin,
  panic, beyond, ok_injective, ◌>>=◌, Bool-cases,
}
use foxtail.Console.{Console, backspace, next_line, print_visible, print_char, print}
use foxtail.Console.Numbers.{kprint_uint32_dec}
use foxtail.Console.Cursor.{OnScreen, print-OnScreen}

pub data VaArg : Type 0 where
  word : ℕ → VaArg
  string : List ℕ → VaArg

abbrev pub hex_digits : ℕ → ℕ
hex_digits d = if ltb d 10 then b'0' + d else b'A' + (d - 10)

-- `for (i = …; i < 32; i += 4)`: the shift of the highest digit that is not 0, from shift `i` on.
unfoldable pub hex_len : ℕ → ℕ → ℕ → ℕ → ℕ
hex_len zero i c len = len
hex_len (suc rounds) i c len = hex_len rounds (i + 4) c (if (c / 2 ^ i) % 16 == 0 then len else i)

-- `for (i = …; i <= len; i += 4)`, the digits from the highest down.
unfoldable pub hex_loop : ℕ → ℕ → ℕ → ℕ → ℕ → Mem → Mem
hex_loop zero i len c buf m = m
hex_loop (suc rounds) i len c buf m =
    hex_loop rounds (i + 4) len c buf
      (store m (buf + i / 4) (hex_digits ((c / 2 ^ (len - i)) % 16)))

unfoldable pub kprint_uint32_hex : ℕ → Mem → ℕ → Mem
unfolding hex_len hex_loop
kprint_uint32_hex c m buf =
    let len = hex_len 7 4 c 0 in
    store (hex_loop (len / 4 + 1) 0 len c buf m) (buf + (1 + len / 4)) 0

-- The string at an address, of `room` bytes at most.
unfoldable pub string_at : ℕ → Mem → ℕ → List ℕ
string_at zero m p = []
string_at (suc room) m p =
    let rest = string_at room m (p + 1) in if m p == 0 then [] else m p ∷ rest

-- The text of one conversion, and the arguments behind it; an unknown one prints nothing. `m` is the
-- memory in which the digits are put, at address 0.
unfoldable pub convert : Mem → ℕ → List VaArg → Outcome (List ℕ × List VaArg)
unfolding kprint_uint32_hex string_at
convert m c args =
    if c == b'd'
    then elim args [
      | [] ↦ fault
      | a ∷ rest ↦ elim a [
        | word n ↦ ok (string_at 11 (kprint_uint32_dec n m 0) 0, rest)
        | string s ↦ fault
      ]
    ]
    else if c == b'x'
    then elim args [
      | [] ↦ fault
      | a ∷ rest ↦ elim a [
        | word n ↦ ok (string_at 9 (kprint_uint32_hex n m 0) 0, rest)
        | string s ↦ fault
      ]
    ]
    else if c == b's'
    then elim args [ [] ↦ fault | a ∷ rest ↦ elim a [ word n ↦ fault | string s ↦ ok (s, rest) ] ]
    else ok ([], args)

-- A character of the format that shows, or moves the cursor.
unfoldable pub put_plain : ℕ → Console → Console
put_plain c s =
    if c == 8 then backspace s else if c == b'\n' then next_line s else print_visible c s

-- The loop of vkprintf; the Boolean is `format_spec`.
unfoldable pub vkprintf : Mem → List ℕ → List VaArg → Bool → Console → Outcome Console
unfolding convert put_plain
vkprintf m [] args format_spec s = ok s
vkprintf m (c ∷ fmt) args true s =
    convert m c args >>= λ (text, rest). vkprintf m fmt rest false (print text s)
vkprintf m (c ∷ fmt) args false s =
    let spec = vkprintf m fmt args true s in
    let plain = vkprintf m fmt args false (put_plain c s) in if c == b'%' then spec else plain

-- The whole text of a format.
abbrev pub expand : Mem → List ℕ → List VaArg → Bool → Outcome (List ℕ)
expand m [] args format_spec = ok []
expand m (c ∷ fmt) args true =
    convert m c args >>= λ (text, rest). expand m fmt rest false >>= λ more. ok (text ++ more)
expand m (c ∷ fmt) args false =
    let spec = expand m fmt args true in
    let plain = expand m fmt args false in
    if c == b'%' then spec else (plain >>= λ more. ok (c ∷ more))

put_plain_lem : (c : ℕ) (s : Console) → put_plain c s ≡ print_char c s
unfolding put_plain print_char
put_plain_lem c s = elim (Bool-cases (c == 8)) [
  | inl e ↦ let other : (c == b'\n') ≡ false = ground arith in rw (e, other) refl
  | inr e ↦ rw e refl
]

print-append : (a b : List ℕ) (s : Console) → print (a ++ b) s ≡ print b (print a s)
unfolding print
print-append [] b s = refl
print-append (c ∷ a) b s = print-append a b (print_char c s)

-- vkprintf shows the text that the format and its arguments make, printed in one go; where an
-- argument is missing or of the wrong kind, both are faults.
pub vkprintf_lem :
    (m : Mem) (fmt : List ℕ) (args : List VaArg) (format_spec : Bool) (s : Console)
    → vkprintf m fmt args format_spec s
      ≡ (expand m fmt args format_spec >>= λ text. ok (print text s))
unfolding vkprintf print
vkprintf_lem m [] args format_spec s = refl
vkprintf_lem m (c ∷ fmt) args true s =
    both (convert m c args) (λ rest s'. vkprintf_lem m fmt rest false s')
  where
    appended :
        (text : List ℕ) (more : Outcome (List ℕ))
        → (more >>= λ b. ok (print b (print text s)))
          ≡ ((more >>= λ b. ok (text ++ b)) >>= λ b. ok (print b s))
    appended text (ok b) = ap ok (sym (print-append text b s))
    appended text fault = refl
    appended text spin = refl
    appended text panic = refl
    appended text beyond = refl

    both :
        (r : Outcome (List ℕ × List VaArg))
        → ((rest : List VaArg) (s' : Console)
            → vkprintf m fmt rest false s' ≡ (expand m fmt rest false >>= λ b. ok (print b s')))
        → (r >>= λ (text, rest). vkprintf m fmt rest false (print text s)) ≡ (
            (r >>= λ (text, rest). expand m fmt rest false >>= λ b. ok (text ++ b)) >>= λ b.
            ok (print b s))
    both (ok (text, rest)) ih = ih rest (print text s) ∙ appended text (expand m fmt rest false)
    both fault ih = refl
    both spin ih = refl
    both panic ih = refl
    both beyond ih = refl
vkprintf_lem m (c ∷ fmt) args false s = elim (Bool-cases (c == b'%')) [
  | inl e ↦ rw e (vkprintf_lem m fmt args true s)
  | inr e ↦ rw e (
      ap (vkprintf m fmt args false) (put_plain_lem c s)
      ∙ vkprintf_lem m fmt args false (print_char c s)
      ∙ begun (expand m fmt args false))
]
  where
    begun :
        (more : Outcome (List ℕ))
        → (more >>= λ b. ok (print b (print_char c s)))
          ≡ ((more >>= λ b. ok (c ∷ b)) >>= λ b. ok (print b s))
    begun (ok b) = refl
    begun fault = refl
    begun spin = refl
    begun panic = refl
    begun beyond = refl

-- A message that vkprintf returns from leaves the cursor on the screen, if it was there before.
pub vkprintf-OnScreen :
    (m : Mem) (fmt : List ℕ) (args : List VaArg) (s s' : Console)
    → OnScreen s
    → vkprintf m fmt args false s ≡ ok s'
    → OnScreen s'
vkprintf-OnScreen m fmt args s s' v shown =
    after (expand m fmt args false) (sym (vkprintf_lem m fmt args false s) ∙ shown)
  where
    after : (r : Outcome (List ℕ)) → (r >>= λ text. ok (print text s)) ≡ ok s' → OnScreen s'
    after (ok text) e = subst OnScreen (ok_injective e) (print-OnScreen text s v)
    after fault e = absurd (cc e)
    after spin e = absurd (cc e)
    after panic e = absurd (cc e)
    after beyond e = absurd (cc e)
