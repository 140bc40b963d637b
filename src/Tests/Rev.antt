-- ===== src/Tests/Rev.antt =====
-- user/src/rev.c on two reads.
use foxtail.Common.{ℕ, ◌≡◌, refl, List, [], ◌∷◌}
use foxtail.User.Rev.{
  reverse_loop, reverse_range, write_line, take_byte, take_bytes, take_reads, rev,
}
use foxtail.User.Rev.Lines.{turned_lines, input_of, rev_lem}

-- "ab", then "c", a newline and "de", the end of the input, and a read that is not made
abbrev reads : List (List ℕ)
reads = (b'a' ∷ b'b' ∷ []) ∷ (b'c' ∷ b'\n' ∷ b'd' ∷ b'e' ∷ []) ∷ [] ∷ (b'f' ∷ []) ∷ []

turned : rev (λ p. 0) reads ≡ b'c' ∷ b'b' ∷ b'a' ∷ b'\n' ∷ b'e' ∷ b'd' ∷ b'\n' ∷ []
unfolding rev take_reads take_bytes take_byte write_line reverse_range reverse_loop
turned = refl

rev_lem_example : rev (λ p. 0) reads ≡ turned_lines [] (input_of reads)
rev_lem_example = rev_lem (λ p. 0) reads
