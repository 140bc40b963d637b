-- ===== src/User/Editor/Files/RoundTrip.antt =====
-- A file that user/src/ed.c loads and saves.
use foxtail.Common.{
  ℕ, zero, suc, ◌+◌, ◌-◌, ◌≤◌, ◌<◌, ◌≡◌, ◌≢◌, refl, sym, ap, ◌∙◌, subst, false, Option, none, some,
  List, [], ◌∷◌, ◌++◌, append_assoc, append-nil, arith, length, length-append, ok, ◌>>=◌, leb, ◌==◌,
  ◌||◌,
}
use foxtail.User.Printf.{c_string}
use foxtail.User.Editor.{Nodes, Editor, make_editor}
use foxtail.User.Editor.Zipper.{Placed, head_of, end_of, texts, Behind, node_at-some}
use foxtail.User.Editor.Steps.{rewind}
use foxtail.User.Editor.Files.{
  append_line, load_loop, load_file, save_from, save_file, max_line_len,
}
use foxtail.User.Editor.Files.Loaded.{Loaded, State, append-State}

-- The lines, each with a newline behind it.
abbrev pub unlines : List (List ℕ) → List ℕ
unlines [] = []
unlines (s ∷ ls) = s ++ 10 ∷ unlines ls

-- The bytes of a line: no newline and no NUL.
abbrev pub IsText : List ℕ → Type 0
IsText [] = Unit {0}
IsText (c ∷ s) = (c ≢ 10) × (c ≢ 0) × IsText s

abbrev pub AllText : List (List ℕ) → Type 0
AllText [] = Unit {0}
AllText (s ∷ ls) = IsText s × (length s < max_line_len) × AllText ls

c_string-IsText : (s : List ℕ) → IsText s → c_string s ≡ s
unfolding c_string
c_string-IsText [] h = refl
c_string-IsText (c ∷ s) (line, nul, h) =
    let e : (c == 0) ≡ false = ground arith in rw e (ap (λ t. c ∷ t) (c_string-IsText s h))

IsText-append : (s t : List ℕ) → IsText s → IsText t → IsText (s ++ t)
IsText-append [] t h k = k
IsText-append (c ∷ s) t (line, nul, h) k = (line, nul, IsText-append s t h k)

-- The loop over the bytes of one line.
load_line :
    (s buffer rest : List ℕ) (ed : Editor)
    → IsText s
    → IsText buffer
    → length buffer + length s < max_line_len
    → load_loop (s ++ 10 ∷ rest) buffer ed
      ≡ (append_line ed (buffer ++ s) >>= λ ed'. load_loop rest [] ed')
unfolding load_loop
load_line [] buffer rest ed h k fits =
    ap (λ t. append_line ed t >>= λ ed'. load_loop rest [] ed')
      (c_string-IsText buffer k ∙ sym (append-nil buffer))
load_line (c ∷ s) buffer rest ed (line, nul, h) k fits =
    let plain : (c == 10 || leb (max_line_len - 1) (length buffer)) ≡ false = ground arith in
    let longer = length-append {0} buffer (c ∷ []) in
    rw plain (
      load_line s (buffer ++ c ∷ []) rest ed h (IsText-append buffer (c ∷ []) k (line, nul, tt))
        (omega (arith, longer))
      ∙ ap (λ t. append_line ed t >>= λ ed'. load_loop rest [] ed')
          (append_assoc buffer (c ∷ []) s))

load_lines :
    (more ls : List (List ℕ)) (ed : Editor)
    → AllText more
    → State ed ls
    → (ed' : Editor) × (load_loop (unlines more) [] ed ≡ ok ed') × State ed' (ls ++ more)
unfolding load_loop
load_lines [] ls ed all st = (ed, refl, subst (State ed) (sym (append-nil ls)) st)
load_lines (s ∷ more) ls ed (h, fits, all) st =
    let (ed1, run, st1) = append-State ed ls s st in
    let (ed2, run', st2) = load_lines more (ls ++ s ∷ []) ed1 all st1 in
    (
      ed2,
      load_line s [] (unlines more) ed h tt (omega (arith, fits))
          ∙ ap (λ r. r >>= λ ed'. load_loop (unlines more) [] ed') run
          ∙ run',
      subst (State ed2) (append_assoc ls (s ∷ []) more) st2,
    )

-- What is written from a line on.
save_lines :
    (fuel : ℕ) (nodes : Nodes) (c : ℕ) (t : List ℕ) (p : Option ℕ) (rs : List Placed)
    → nodes c ≡ some (record { text = t; next = head_of rs; prev = p })
    → Behind nodes c rs
    → length rs + 2 ≤ fuel
    → save_from fuel nodes (some c) ≡ ok (unlines (t ∷ texts rs))
unfolding save_from
save_lines zero nodes c t p rs at b enough = absurd (omega arith)
save_lines (suc zero) nodes c t p rs at b enough = absurd (omega arith)
save_lines (suc (suc fuel)) nodes c t p [] at b enough =
    rw (node_at-some nodes c (record { text = t; next = none; prev = p }) at) refl
save_lines (suc (suc fuel)) nodes c t p ((i, u) ∷ rs) at (at', b) enough =
    rw
      (
        node_at-some nodes c (record { text = t; next = some i; prev = p }) at,
        save_lines (suc fuel) nodes i u (some c) rs at' b (omega arith),
      )
      refl

length-texts : (ls : List Placed) → length (texts ls) ≡ length ls
length-texts [] = refl
length-texts (l ∷ ls) = ap suc (length-texts ls)

-- The lines that are loaded are written.
save-Loaded :
    (fuel : ℕ) (ed : Editor) (ls : List (List ℕ))
    → Loaded ed ls
    → length ls < fuel
    → save_from fuel ed.nodes ed.first ≡ ok (unlines ls)
save-Loaded fuel ed ls l enough =
    let (t, rs, start, same) =
      rewind (record ed { current = some l.e }) l.bs l.e l.t [] 0 l.shows in
    let lines : t ∷ texts rs ≡ ls = ap texts (sym same) ∙ l.lines in
    let count : length (t ∷ texts rs) ≡ length ls = ap (λ (x : List (List ℕ)). length x) lines in
    let run =
      save_lines fuel ed.nodes (end_of l.e l.bs) t none rs start.node start.behind
        (omega (arith, count, length-texts rs, enough)) in
    ap (save_from fuel ed.nodes) l.shows.first_is ∙ run ∙ ap (λ x. ok (unlines x)) lines

save_from-none :
    (fuel : ℕ) (ed : Editor)
    → ed ≡ make_editor
    → 2 ≤ fuel
    → save_from fuel ed.nodes ed.first ≡ ok []
unfolding save_from make_editor
save_from-none zero ed st enough = absurd (omega arith)
save_from-none (suc fuel) ed st enough = ap (λ x. save_from (suc fuel) x.nodes x.first) st

total-none : (ed : Editor) → ed ≡ make_editor → ed.total_lines ≡ 0
unfolding make_editor
total-none ed st = ap (λ x. x.total_lines) st

-- A file of lines that have at most 255 bytes, each with a newline behind it and no NUL, is loaded,
-- with its number of lines, and save_file returns and writes the same bytes, if its fuel exceeds
-- that number by 2.
pub save_file-load_file :
    (fuel : ℕ) (ls : List (List ℕ))
    → AllText ls
    → length ls + 2 ≤ fuel
    → (ed : Editor) × (load_file make_editor (unlines ls) ≡ ok ed)
      × (ed.total_lines ≡ length ls)
      × (save_file fuel ed ≡ ok (unlines ls, record ed { modified = false }))
unfolding load_file save_file State
save_file-load_file fuel ls all enough =
    let (ed, run, st) = load_lines ls [] make_editor all refl in
    let (total, saved) = facts ed ls st enough in
    (record ed { current_line_idx = 1 }, rw run refl, total, rw saved refl)
  where
    facts :
        (ed : Editor) (ls : List (List ℕ))
        → State ed ls
        → length ls + 2 ≤ fuel
        → (ed.total_lines ≡ length ls) × (save_from fuel ed.nodes ed.first ≡ ok (unlines ls))
    facts ed [] st enough = (total-none ed st, save_from-none fuel ed st enough)
    facts ed (s ∷ ls) (loaded, cur, total) enough =
        (total, save-Loaded fuel ed (s ∷ ls) loaded (omega (arith, enough)))
