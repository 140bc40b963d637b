-- ===== src/User/Editor/Files/Append.antt =====
-- A line that user/src/ed.c appends while it loads a file.
use foxtail.Common.{
  ℕ, ◌+◌, ◌≡◌, refl, sym, ◌∙◌, subst, Bool, true, none, some, List, [], ◌∷◌, arith, ok,
  ok_injective,
}
use foxtail.User.Editor.{Line, Nodes, Editor, put_node, link_prev, insert_behind}
use foxtail.User.Editor.Zipper.{Placed, head_of, Shows, node_at-some, put_node_ne}
use foxtail.User.Editor.Insert.{insert_behind_lem}
use foxtail.User.Editor.Files.{append_line}

-- The fields on which `Shows` depends.
pub Shows-kept :
    (ed : Editor) (i m : ℕ) (b : Bool) (bs : List Placed) (c : ℕ) (t : List ℕ) (rs : List Placed)
    → Shows ed bs c t rs
    → Shows (record ed { current_line_idx = i; total_lines = m; modified = b }) bs c t rs
Shows-kept ed i m b bs c t rs sh = record {
  node = sh.node;
  behind = sh.behind;
  before = sh.before;
  first_is = sh.first_is;
  last_is = sh.last_is;
  current_is = sh.current_is;
  behind_avoids = sh.behind_avoids;
  before_avoids = sh.before_avoids;
  behind_distinct = sh.behind_distinct;
  before_distinct = sh.before_distinct;
  disjoint = sh.disjoint;
  disjoint' = sh.disjoint';
  under = sh.under;
}

module _ (ed : Editor) (bs : List Placed) (e : ℕ) (t s : List ℕ)
    (sh : Shows (record ed { current = some e }) bs e t []) where
  abbrev pub n : ℕ
  n = ed.fresh

  new : Line
  new = record { text = s; next = none; prev = some e }

  joined : Line
  joined = record { text = t; next = some n; prev = head_of bs }

  nodes2 : Nodes
  nodes2 = put_node (put_node ed.nodes n new) e joined

  pub appended : Editor
  appended = record ed {
    nodes = nodes2;
    fresh = n + 1;
    last = some n;
    total_lines = ed.total_lines + 1;
  }

  still : put_node ed.nodes n new e ≡ some (record { text = t; next = none; prev = head_of bs })
  unfolding new
  still = put_node_ne ed.nodes n e new (λ q. omega (arith, sh.under.0, q)) ∙ sh.node

  pub append_line-run : append_line ed s ≡ ok appended
  unfolding append_line new joined nodes2 appended
  append_line-run = ground (
    arith,
    sh.first_is,
    sh.last_is,
    node_at-some (put_node ed.nodes n new) e (record { text = t; next = none; prev = head_of bs })
        still,
  )

  -- The editor that insert_behind would make of it has the same lines.
  inserted : Editor
  inserted = record appended {
    current = some n;
    current_line_idx = ed.current_line_idx + 1;
    modified = true;
  }

  inserted-run : insert_behind (record ed { current = some e }) e s ≡ ok inserted
  unfolding insert_behind link_prev new joined nodes2 appended inserted
  inserted-run =
      rw
        (
          node_at-some ed.nodes e (record { text = t; next = none; prev = head_of bs }) sh.node,
          node_at-some (put_node ed.nodes n new) e
              (record { text = t; next = none; prev = head_of bs }) still,
        )
        refl

  pub appended-Shows : Shows (record appended { current = some n }) ((e, t) ∷ bs) n s []
  unfolding inserted appended
  appended-Shows =
      let m = insert_behind_lem (record ed { current = some e }) bs e t [] s sh in
      let same : m.result ≡ inserted = ok_injective (sym m.run ∙ inserted-run) in
      Shows-kept inserted ed.current_line_idx (ed.total_lines + 1) ed.modified ((e, t) ∷ bs) n s []
        (subst (λ (x : Editor). Shows x ((e, t) ∷ bs) n s []) same m.shows)

  pub appended-current : ed.current ≡ ed.first → appended.current ≡ appended.first
  unfolding appended
  appended-current cur = cur

  pub appended-total : appended.total_lines ≡ ed.total_lines + 1
  unfolding appended
  appended-total = refl
