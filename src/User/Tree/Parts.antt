-- ===== src/User/Tree/Parts.antt =====
-- The directory and the name in a path, as user/src/link.c, mv.c and create.c find them.
use foxtail.Common.{
  ℕ, suc, ◌+◌, ◌≡◌, ◌≢◌, refl, ap, ◌∙◌, false, List, [], ◌∷◌, ◌++◌, take, drop, length, arith, ◌==◌,
  if◌then◌else◌,
}
use foxtail.User.Tree.{last_slash, link_parts, create_parts}

-- No byte is a slash.
abbrev pub IsName : List ℕ → Type 0
IsName [] = Unit {0}
IsName (c ∷ s) = (c ≢ b'/') × IsName s

last_slash_name : (i found : ℕ) (s : List ℕ) → IsName s → last_slash i found s ≡ found
unfolding last_slash
last_slash_name i found [] h = refl
last_slash_name i found (c ∷ s) (ne, h) =
    let e : (c == b'/') ≡ false = ground arith in rw e (last_slash_name (i + 1) found s h)

last_slash_lem :
    (i found : ℕ) (d name : List ℕ)
    → IsName name
    → last_slash i found (d ++ b'/' ∷ name) ≡ i + length d
unfolding last_slash
last_slash_lem i found [] name h = last_slash_name (i + 1) i name h ∙ omega arith
last_slash_lem i found (c ∷ d) name h =
    last_slash_lem (i + 1) (if c == b'/' then i else found) d name h ∙ omega arith

take-length : (d rest : List ℕ) → take (length d) (d ++ rest) ≡ d
take-length [] rest = refl
take-length (c ∷ d) rest = ap (λ l. c ∷ l) (take-length d rest)

drop-length : (d : List ℕ) (c : ℕ) (name : List ℕ) → drop (length d + 1) (d ++ c ∷ name) ≡ name
drop-length d c name = ap (λ n. drop n (d ++ c ∷ name)) (one_more (length d)) ∙ behind d
  where
    one_more : (n : ℕ) → n + 1 ≡ suc n
    one_more n = omega arith

    behind : (d : List ℕ) → drop (suc (length d)) (d ++ c ∷ name) ≡ name
    behind [] = refl
    behind (b ∷ d) = behind d

is_some : (d : List ℕ) → (suc (length d) == 0) ≡ false
is_some d = ground arith

-- link.c and mv.c split a path at its last slash, if that is not its first byte; the slash is in
-- neither part.
pub link_parts_lem :
    (c : ℕ) (d name : List ℕ) → IsName name → link_parts (c ∷ d ++ b'/' ∷ name) ≡ (c ∷ d, name)
unfolding link_parts
link_parts_lem c d name h =
    let at : last_slash 0 0 (c ∷ d ++ b'/' ∷ name) ≡ suc (length d) =
      last_slash_lem 0 0 (c ∷ d) name h ∙ omega arith in
    rw (at, is_some d)
      (ap (λ l. (l, drop (suc (length d) + 1) (c ∷ d ++ b'/' ∷ name)))
          (take-length (c ∷ d) (b'/' ∷ name))
        ∙ ap (λ l. (c ∷ d, l)) (drop-length (c ∷ d) b'/' name))

-- create.c loses the name: of a path with a slash that is not its first byte it takes the directory,
-- and the empty name.
pub create_parts_lem :
    (c : ℕ) (d name : List ℕ) → IsName name → create_parts (c ∷ d ++ b'/' ∷ name) ≡ (c ∷ d, [])
unfolding create_parts
create_parts_lem c d name h =
    let at : last_slash 0 0 (c ∷ d ++ b'/' ∷ name) ≡ suc (length d) =
      last_slash_lem 0 0 (c ∷ d) name h ∙ omega arith in
    rw (at, is_some d) (ap (λ l. (l, [])) (take-length (c ∷ d) (b'/' ∷ name)))
