-- ===== src/Tests/Programs.antt =====
-- user/src/create.c and mv.c on paths with a directory.
use foxtail.Common.{ℕ, ◌≡◌, refl, List, [], ◌∷◌, ◌++◌, ok}
use foxtail.Kernel.{minus_one}
use foxtail.User.Tree.{TreeCalls, last_slash, create_parts, create_one, link_parts, link_to, move}

-- The state is the list of the names that are there; the link cannot be made.
abbrev broken : TreeCalls (List (List ℕ))
broken = record {
  create = λ dirname filename dir s. (0, s ++ dirname ∷ filename ∷ []);
  delete = λ path s. (0, []);
  link = λ target dir name s. (minus_one, s);
  harden = λ path s. (minus_one, s);
}

-- "a/b"
abbrev inner : List ℕ
inner = b'a' ∷ b'/' ∷ b'b' ∷ []

nameless : create_one broken inner [] ≡ ok ((b'a' ∷ []) ∷ [] ∷ [])
unfolding create_one create_parts last_slash
nameless = refl

-- The file is gone where it was, and not made where it should be.
moved_away : move broken inner (b'c' ∷ []) (inner ∷ []) ≡ []
unfolding move link_to link_parts last_slash
moved_away = refl
