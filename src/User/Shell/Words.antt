-- ===== src/User/Shell/Words.antt =====
-- The splitting of a command into arguments in user/src/sh.c, against a splitter of one pass.
use foxtail.Common.{
  ℕ, zero, suc, ◌≡◌, inl, inr, refl, sym, ap, ◌∙◌, true, false, List, [], ◌∷◌, ◌++◌, append-nil,
  append_assoc, take, ◌==◌, if◌then◌else◌, Bool-cases,
}
use foxtail.User.Shell.{
  until, from, behind, skip_spaces, keep, trim_end, trim, parse_loop, parse_args, max_args,
}

-- A field in front of others, unless it is empty.
abbrev pub put_field : List ℕ → List (List ℕ) → List (List ℕ)
put_field [] fs = fs
put_field (c ∷ s) fs = (c ∷ s) ∷ fs

-- The fields of a string that are not empty, between separators; `acc` is the field so far.
abbrev pub fields_from : ℕ → List ℕ → List ℕ → List (List ℕ)
fields_from sep acc [] = put_field acc []
fields_from sep acc (c ∷ s) =
    let ends = put_field acc (fields_from sep [] s) in
    let goes_on = fields_from sep (acc ++ c ∷ []) s in if c == sep then ends else goes_on

abbrev pub fields : ℕ → List ℕ → List (List ℕ)
fields sep s = fields_from sep [] s

-- The first field and the rest.
pub fields-until :
    (sep : ℕ) (acc s : List ℕ)
    → fields_from sep acc s ≡ put_field (acc ++ until sep s) (fields sep (behind (from sep s)))
unfolding until from
fields-until sep acc [] = ap (λ a. put_field a []) (sym (append-nil acc))
fields-until sep acc (c ∷ s) = elim (Bool-cases (c == sep)) [
  | inl e ↦ rw e (ap (λ a. put_field a (fields sep s)) (sym (append-nil acc)))
  | inr e ↦ rw e (
      fields-until sep (acc ++ c ∷ []) s
      ∙ ap (λ a. put_field a (fields sep (behind (from sep s))))
          (append_assoc acc (c ∷ []) (until sep s)))
]

pub fields-at :
    (sep : ℕ) (acc : List ℕ) (c : ℕ) (s : List ℕ)
    → (c == sep) ≡ true
    → fields_from sep acc (c ∷ s) ≡ put_field acc (fields sep s)
fields-at sep acc c s e = rw e refl

pub fields-ne :
    (sep : ℕ) (acc : List ℕ) (c : ℕ) (s : List ℕ)
    → (c == sep) ≡ false
    → fields_from sep acc (c ∷ s) ≡ fields_from sep (acc ++ c ∷ []) s
fields-ne sep acc c s e = rw e refl

pub until-ne : (sep c : ℕ) (s : List ℕ) → (c == sep) ≡ false → until sep (c ∷ s) ≡ c ∷ until sep s
unfolding until
until-ne sep c s e = rw e refl

pub from-ne : (sep c : ℕ) (s : List ℕ) → (c == sep) ≡ false → from sep (c ∷ s) ≡ from sep s
unfolding from
from-ne sep c s e = rw e refl

-- One round of parse_args, on the rest that the last round leaves.
round :
    (room : ℕ) (buf : List ℕ)
    → ((s : List ℕ) → parse_loop room (skip_spaces s) ≡ take room (fields b' ' s))
    → parse_loop (suc room) (skip_spaces buf) ≡ take (suc room) (fields b' ' buf)
unfolding parse_loop skip_spaces
round room [] ih = refl
round room (c ∷ buf) ih = elim (Bool-cases (c == b' ')) [
  | inl e ↦ rw e (round room buf ih)
  | inr e ↦
      ap (parse_loop (suc room)) (starts e)
      ∙ ap (λ w. w ∷ parse_loop room (skip_spaces (behind (from b' ' (c ∷ buf)))))
          (until-ne b' ' c buf e)
      ∙ ap (λ t. (c ∷ until b' ' buf) ∷ parse_loop room (skip_spaces (behind t)))
          (from-ne b' ' c buf e)
      ∙ ap (λ fs. (c ∷ until b' ' buf) ∷ fs) (ih (behind (from b' ' buf)))
      ∙ ap (take (suc room))
          (sym (fields-until b' ' (c ∷ []) buf) ∙ sym (fields-ne b' ' [] c buf e))
]
  where
    starts : (c == b' ') ≡ false → skip_spaces (c ∷ buf) ≡ c ∷ buf
    starts e = rw e refl

rounds : (room : ℕ) (s : List ℕ) → parse_loop room (skip_spaces s) ≡ take room (fields b' ' s)
unfolding parse_loop
rounds zero s = refl
rounds (suc room) s = round room s (rounds room)

-- parse_args gives the words of a command, the runs of bytes between spaces, in their order, and of
-- more than 16 words the first 16.
pub parse_args_lem : (buf : List ℕ) → parse_args buf ≡ take max_args (fields b' ' buf)
unfolding parse_args
parse_args_lem buf = rounds max_args buf

fields-keep :
    (acc : List ℕ) (c : ℕ) (t : List ℕ)
    → fields_from b' ' acc (keep c t) ≡ fields_from b' ' acc (c ∷ t)
fields-keep acc c (d ∷ t) = refl
fields-keep acc c [] = elim (Bool-cases (c == b' ')) [
  | inl e ↦ ap (fields_from b' ' acc) (cut e) ∙ sym (fields-at b' ' acc c [] e)
  | inr e ↦ ap (fields_from b' ' acc) (stays e)
]
  where
    cut : (c == b' ') ≡ true → keep c [] ≡ []
    cut e = rw e refl

    stays : (c == b' ') ≡ false → keep c [] ≡ c ∷ []
    stays e = rw e refl

fields-trim_end : (acc s : List ℕ) → fields_from b' ' acc (trim_end s) ≡ fields_from b' ' acc s
unfolding trim_end
fields-trim_end acc [] = refl
fields-trim_end acc (c ∷ s) = fields-keep acc c (trim_end s) ∙ elim (Bool-cases (c == b' ')) [
  | inl e ↦ rw e (ap (put_field acc) (fields-trim_end [] s))
  | inr e ↦ rw e (fields-trim_end (acc ++ c ∷ []) s)
]

fields-trim : (s : List ℕ) → fields b' ' (trim s) ≡ fields b' ' s
unfolding trim
fields-trim [] = refl
fields-trim (c ∷ s) = elim (Bool-cases (c == b' ')) [
  | inl e ↦
      ap (fields b' ') (leads e)
      ∙ fields-at b' ' [] c (trim s) e
      ∙ fields-trim s
      ∙ sym (fields-at b' ' [] c s e)
  | inr e ↦ ap (fields b' ') (ends e) ∙ fields-trim_end [] (c ∷ s)
]
  where
    leads : (c == b' ') ≡ true → trim (c ∷ s) ≡ c ∷ trim s
    leads e = rw e refl

    ends : (c == b' ') ≡ false → trim (c ∷ s) ≡ trim_end (c ∷ s)
    ends e = rw e refl

-- The trimming that the shell does around a pipe changes no argument.
pub parse_args-trim : (s : List ℕ) → parse_args (trim s) ≡ parse_args s
parse_args-trim s =
    parse_args_lem (trim s) ∙ ap (take max_args) (fields-trim s) ∙ sym (parse_args_lem s)
