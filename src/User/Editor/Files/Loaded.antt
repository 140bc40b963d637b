-- ===== src/User/Editor/Files/Loaded.antt =====
-- The lines that load_file of user/src/ed.c has made so far.
use foxtail.Common.{
  ℕ, ◌+◌, ◌≡◌, refl, sym, ap, ◌∙◌, false, none, some, List, [], ◌∷◌, ◌++◌, append_assoc, arith,
  length, length-append, Outcome, ok,
}
use foxtail.User.Editor.{Editor, put_node, make_editor}
use foxtail.User.Editor.Zipper.{Placed, texts, Shows}
use foxtail.User.Editor.Files.Append.{
  appended, append_line-run, appended-Shows, appended-current, appended-total,
}
use foxtail.User.Editor.Steps.{whole}
use foxtail.User.Editor.Files.{append_line}

-- The lines of a file that is being loaded: the last of them is `t`, at address `e`.
pub record Loaded (ed : Editor) (ls : List (List ℕ)) : Type 0 where
  pub bs : List Placed
  pub e : ℕ
  pub t : List ℕ
  pub shows : Shows (record ed { current = some e }) bs e t []
  pub lines : texts (whole bs ((e, t) ∷ [])) ≡ ls

-- What appending a line to the lines loaded so far leaves; the first line is current.
record Grown (ed : Editor) (ls : List (List ℕ)) (s : List ℕ) (r : Outcome Editor) : Type 0 where
  result : Editor
  run : r ≡ ok result
  loaded : Loaded result (ls ++ s ∷ [])
  first_current : result.current ≡ result.first
  total : result.total_lines ≡ ed.total_lines + 1

texts-whole : (bs ls : List Placed) → texts (whole bs ls) ≡ texts (whole bs []) ++ texts ls
texts-whole [] ls = refl
texts-whole ((i, t) ∷ bs) ls =
    texts-whole bs ((i, t) ∷ ls)
    ∙ sym (append_assoc (texts (whole bs [])) (t ∷ []) (texts ls))
    ∙ ap (λ l. l ++ texts ls) (sym (texts-whole bs ((i, t) ∷ [])))

append-Loaded :
    (ed : Editor) (ls : List (List ℕ)) (s : List ℕ)
    → Loaded ed ls
    → ed.current ≡ ed.first
    → Grown ed ls s (append_line ed s)
append-Loaded ed ls s l cur = record {
  result = appended ed l.bs l.e l.t s l.shows;
  run = append_line-run ed l.bs l.e l.t s l.shows;
  loaded = record {
    bs = (l.e, l.t) ∷ l.bs;
    e = ed.fresh;
    t = s;
    shows = appended-Shows ed l.bs l.e l.t s l.shows;
    lines = texts-whole ((l.e, l.t) ∷ l.bs) ((ed.fresh, s) ∷ []) ∙ ap (λ x. x ++ s ∷ []) l.lines;
  };
  first_current = appended-current ed l.bs l.e l.t s l.shows cur;
  total = appended-total ed l.bs l.e l.t s l.shows;
}

-- What loading has made of the lines that it has read.
unfoldable pub State : Editor → List (List ℕ) → Type 0
State ed [] = ed ≡ make_editor
State ed (s ∷ ls) =
    Loaded ed (s ∷ ls) × (ed.current ≡ ed.first) × (ed.total_lines ≡ length (s ∷ ls))

first-Loaded :
    (s : List ℕ) → (ed : Editor) × (append_line make_editor s ≡ ok ed) × State ed (s ∷ [])
unfolding append_line make_editor State
first-Loaded s = (
  record {
    nodes = put_node (λ i. none) 0 (record { text = s; next = none; prev = none });
    fresh = 0 + 1;
    first = some 0;
    current = some 0;
    last = some 0;
    current_line_idx = 0;
    total_lines = 0 + 1;
    modified = false;
  },
  refl,
  (
    record {
      bs = [];
      e = 0;
      t = s;
      shows = record {
        node = refl;
        behind = tt;
        before = tt;
        first_is = refl;
        last_is = refl;
        current_is = refl;
        behind_avoids = tt;
        before_avoids = tt;
        behind_distinct = tt;
        before_distinct = tt;
        disjoint = tt;
        disjoint' = tt;
        under = (omega arith, tt, tt);
      };
      lines = refl;
    },
    refl,
    refl,
  ),
)

pub append-State :
    (ed : Editor) (ls : List (List ℕ)) (s : List ℕ)
    → State ed ls
    → (ed' : Editor) × (append_line ed s ≡ ok ed') × State ed' (ls ++ s ∷ [])
unfolding State
append-State ed [] s st =
    let (ed', run, st') = first-Loaded s in (ed', ap (λ x. append_line x s) st ∙ run, st')
append-State ed (l ∷ ls) s (loaded, cur, total) =
    let g = append-Loaded ed (l ∷ ls) s loaded cur in
    (
      g.result,
      g.run,
      (
        g.loaded,
        g.first_current,
        omega (arith, g.total, total, length-append {0} (l ∷ ls) (s ∷ [])),
      ),
    )
