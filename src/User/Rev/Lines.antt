-- ===== src/User/Rev/Lines.antt =====
-- What user/src/rev.c writes, as a function of its whole input.
use mathlib.Core.List.{reverse}
use foxtail.Common.{
  ℕ, suc, ◌+◌, ◌-◌, ◌≡◌, inl, inr, refl, sym, ap, ◌∙◌, subst, true, false, List, [], ◌∷◌, ◌++◌,
  append-nil, append_assoc, arith, length, length-append, Mem, store, store_self, store_ne, ltb,
  ◌==◌, if◌then◌else◌, Bool-cases,
}
use foxtail.Syscall.Transfer.{bytes_at}
use foxtail.User.Rev.{Rev, buf_size, write_line, take_byte, take_bytes, take_reads, rev}
use foxtail.User.Rev.Ranges.{bytes_at-snoc, bytes_at_same, reverse_range_lem}

-- The input in one pass: `acc` is the line so far, without the bytes behind its first 255.
abbrev pub add_byte : List ℕ → ℕ → List ℕ
add_byte acc c = if ltb (length acc) (buf_size - 1) then acc ++ c ∷ [] else acc

abbrev pub turned_lines : List ℕ → List ℕ → List ℕ
turned_lines [] [] = []
turned_lines (a ∷ acc) [] = reverse (a ∷ acc) ++ b'\n' ∷ []
turned_lines acc (c ∷ input) =
    let ends = turned_lines [] input in
    let goes_on = turned_lines (add_byte acc c) input in
    if c == b'\n' then reverse acc ++ b'\n' ∷ ends else goes_on

-- The input that the reads give, up to the first that is empty.
abbrev pub input_of : List (List ℕ) → List ℕ
input_of [] = []
input_of ([] ∷ reads) = []
input_of ((c ∷ bytes) ∷ reads) = (c ∷ bytes) ++ input_of reads

-- The buffer holds the line so far.
Holds : Rev → List ℕ → Type 0
Holds st acc = (st.line_len ≡ length acc) × (bytes_at st.line st.line_len 0 ≡ acc)

write_line_lem :
    (st : Rev) (acc : List ℕ)
    → Holds st acc
    → (write_line st).output ≡ st.output ++ (reverse acc ++ b'\n' ∷ [])
unfolding write_line Holds
write_line_lem st acc (len, held) =
    ap (λ l. st.output ++ (l ++ b'\n' ∷ []))
      (reverse_range_lem st.line st.line_len ∙ ap reverse held)

cleared : (st : Rev) → Holds (write_line st) []
unfolding write_line Holds
cleared st = (refl, refl)

-- The state after a byte that is kept.
kept : ℕ → Rev → Rev
kept c st = record st { line = store st.line st.line_len c; line_len = st.line_len + 1 }

kept-Holds : (c : ℕ) (st : Rev) (acc : List ℕ) → Holds st acc → Holds (kept c st) (acc ++ c ∷ [])
unfolding kept Holds
kept-Holds c st acc (len, held) =
    let line = store st.line st.line_len c in
    let before : bytes_at line st.line_len 0 ≡ bytes_at st.line st.line_len 0 =
      bytes_at_same line st.line st.line_len 0
        (λ q lt. store_ne st.line st.line_len c q (λ e. absurd (omega (arith, e, lt)))) in
    let last : line (0 + st.line_len) ≡ c =
      ap line (omega arith) ∙ store_self st.line st.line_len c in
    (
      omega (arith, len, length-append {0} acc (c ∷ [])),
      ap (λ k. bytes_at line k 0) (one_more st.line_len)
          ∙ bytes_at-snoc line st.line_len 0
          ∙ ap (λ l. l ++ line (0 + st.line_len) ∷ []) (before ∙ held)
          ∙ ap (λ x. acc ++ x ∷ []) last,
    )
  where
    one_more : (n : ℕ) → n + 1 ≡ suc n
    one_more n = omega arith

add_byte-Holds :
    (c : ℕ) (st : Rev) (acc : List ℕ)
    → (c == b'\n') ≡ false
    → Holds st acc
    → Holds (take_byte c st) (add_byte acc c) × ((take_byte c st).output ≡ st.output)
unfolding take_byte kept Holds
add_byte-Holds c st acc plain h = elim (Bool-cases (ltb st.line_len (buf_size - 1))) [
  | inl room ↦
      let step : take_byte c st ≡ kept c st = rw (plain, room) refl in
      let room' : ltb (length acc) (buf_size - 1) ≡ true = ground (arith, h.0) in
      let grown : add_byte acc c ≡ acc ++ c ∷ [] = rw room' refl in
      (
        subst (λ x. Holds x (add_byte acc c)) (sym step)
            (subst (Holds (kept c st)) (sym grown) (kept-Holds c st acc h)),
        ap (λ x. x.output) step,
      )
  | inr full ↦
      let step : take_byte c st ≡ st = rw (plain, full) refl in
      let full' : ltb (length acc) (buf_size - 1) ≡ false = ground (arith, h.0) in
      let same : add_byte acc c ≡ acc = rw full' refl in
      (
        subst (λ x. Holds x (add_byte acc c)) (sym step) (subst (Holds st) (sym same) h),
        ap (λ x. x.output) step,
      )
]

-- The last line.
finish : Rev → List ℕ
finish st = (if ltb 0 st.line_len then write_line st else st).output

finish_lem : (st : Rev) (acc : List ℕ) → Holds st acc → finish st ≡ st.output ++ turned_lines acc []
unfolding finish Holds
finish_lem st [] (len, held) =
    let e : ltb 0 st.line_len ≡ false = ground (arith, len) in
    ap (λ b. (if b then write_line st else st).output) e ∙ sym (append-nil st.output)
finish_lem st (a ∷ acc) h =
    let e : ltb 0 st.line_len ≡ true = ground (arith, h.0) in
    ap (λ b. (if b then write_line st else st).output) e ∙ write_line_lem st (a ∷ acc) h

newline_lem :
    (c : ℕ) (st : Rev) (acc : List ℕ)
    → (c == b'\n') ≡ true
    → Holds st acc
    → Holds (take_byte c st) []
      × ((take_byte c st).output ≡ st.output ++ (reverse acc ++ b'\n' ∷ []))
unfolding take_byte
newline_lem c st acc e h =
    let step : take_byte c st ≡ write_line st = rw e refl in
    (
      subst (λ x. Holds x []) (sym step) (cleared st),
      ap (λ x. x.output) step ∙ write_line_lem st acc h,
    )

take_bytes_lem :
    (input : List ℕ) (st : Rev) (acc : List ℕ)
    → Holds st acc
    → finish (take_bytes input st) ≡ st.output ++ turned_lines acc input
unfolding take_bytes
take_bytes_lem [] st acc h = finish_lem st acc h
take_bytes_lem (c ∷ input) st acc h = elim (Bool-cases (c == b'\n')) [
  | inl e ↦
      let (h', more) = newline_lem c st acc e h in
      take_bytes_lem input (take_byte c st) [] h'
      ∙ ap (λ o. o ++ turned_lines [] input) more
      ∙ append_assoc st.output (reverse acc ++ b'\n' ∷ []) (turned_lines [] input)
      ∙ ap (λ l. st.output ++ l)
          (append_assoc (reverse acc) (b'\n' ∷ []) (turned_lines [] input) ∙ ends e)
  | inr e ↦
      let (h', same) = add_byte-Holds c st acc e h in
      take_bytes_lem input (take_byte c st) (add_byte acc c) h'
      ∙ ap (λ o. o ++ turned_lines (add_byte acc c) input) same
      ∙ ap (λ l. st.output ++ l) (goes_on e)
]
  where
    ends :
        (c == b'\n') ≡ true
        → reverse acc ++ b'\n' ∷ turned_lines [] input ≡ turned_lines acc (c ∷ input)
    ends e = rw e refl

    goes_on :
        (c == b'\n') ≡ false → turned_lines (add_byte acc c) input ≡ turned_lines acc (c ∷ input)
    goes_on e = rw e refl

take_bytes-append :
    (a b : List ℕ) (st : Rev) → take_bytes (a ++ b) st ≡ take_bytes b (take_bytes a st)
unfolding take_bytes
take_bytes-append [] b st = refl
take_bytes-append (c ∷ a) b st = take_bytes-append a b (take_byte c st)

take_reads-input_of :
    (reads : List (List ℕ)) (st : Rev) → take_reads reads st ≡ take_bytes (input_of reads) st
unfolding take_reads take_bytes
take_reads-input_of [] st = refl
take_reads-input_of ([] ∷ reads) st = refl
take_reads-input_of ((c ∷ bytes) ∷ reads) st =
    take_reads-input_of reads (take_bytes (c ∷ bytes) st)
    ∙ sym (take_bytes-append (c ∷ bytes) (input_of reads) st)

-- rev writes each line of its input, which ends at the first empty read, turned around, with a
-- newline behind it, the last one too if it has no newline and is not empty. Where the reads cut the
-- input makes no difference, nor does what the buffer holds at first. Of a longer line the first 255
-- bytes are turned around.
pub rev_lem :
    (line : Mem) (reads : List (List ℕ)) → rev line reads ≡ turned_lines [] (input_of reads)
unfolding rev finish Holds
rev_lem line reads =
    let empty : Rev = record { line = line; line_len = 0; output = [] } in
    ap finish (take_reads-input_of reads empty)
    ∙ take_bytes_lem (input_of reads) empty [] (refl, refl)
