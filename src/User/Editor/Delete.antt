-- ===== src/User/Editor/Delete.antt =====
-- delete_line of user/src/ed.c.
use foxtail.Common.{
  ℕ, ◌-◌, ◌≡◌, ◌≢◌, refl, ◌∙◌, subst, none, some, List, [], ◌∷◌, arith, Outcome, ok, true,
}
use foxtail.User.Editor.{
  Line, Nodes, Editor, put_node, free_node, link_prev, link_next, unless_linked, remove,
  delete_line,
}
use foxtail.User.Editor.Zipper.{
  Placed, head_of, Shows, Before-put_node, Behind-free_node, Before-free_node, link_next-Before,
  Behind-Same, Same, Same-of_Disjoint, Same-put_node, Same-trans, node_at-some, put_node_self,
  new_end, Disjoint-tail,
}

-- The editor without the current line: the next line is current, or the one before where there is
-- none, or there is no line left.
abbrev pub Left : Editor → List Placed → List Placed → Type 0
Left ed bs ((r, u) ∷ rs) = Shows ed bs r u rs
Left ed ((b, u) ∷ bs) [] = Shows ed bs b u []
Left ed [] [] = (ed.first ≡ none) × (ed.current ≡ none) × (ed.last ≡ none)

pub record Deleted (ed : Editor) (bs rs : List Placed) (r : Outcome Editor) : Type 0 where
  pub result : Editor
  pub run : r ≡ ok result
  pub left : Left result bs rs
  pub index : result.current_line_idx ≡ ed.current_line_idx
  pub total : result.total_lines ≡ ed.total_lines - 1
  pub marked : result.modified ≡ true

free_node_ne : (nodes : Nodes) (i j : ℕ) → i ≢ j → free_node nodes i j ≡ nodes j
free_node_ne nodes i j ne = ground arith

-- There is a line behind the current one.
remove-next :
    (ed : Editor) (bs : List Placed) (c : ℕ) (t : List ℕ) (r : ℕ) (u : List ℕ) (rs : List Placed)
    → Shows ed bs c t ((r, u) ∷ rs)
    → Deleted ed bs ((r, u) ∷ rs) (remove ed c)
unfolding remove link_prev
remove-next ed bs c t r u rs sh =
    let l : Line = record { text = t; next = some r; prev = head_of bs } in
    let next : Line = record { text = u; next = head_of rs; prev = some c } in
    let (nodes1, linked, before1, keeps) =
      link_next-Before ed.nodes c r bs sh.before_distinct sh.before in
    let there : nodes1 r ≡ some next = keeps r sh.disjoint.0 ∙ sh.behind.0 in
    let joined : Line = record next { prev = head_of bs } in
    let nodes2 = put_node nodes1 r joined in
    let same : Same ed.nodes nodes2 rs =
      Same-trans ed.nodes nodes1 nodes2 rs
        (Same-of_Disjoint ed.nodes nodes1 bs rs keeps sh.disjoint.1)
        (Same-put_node nodes1 r joined rs sh.behind_distinct.0) in
    record {
      result = record ed {
        nodes = free_node nodes2 c;
        first = unless_linked (head_of bs) (some r) ed.first;
        current = some r;
        total_lines = ed.total_lines - 1;
        modified = true;
      };
      run = rw (node_at-some ed.nodes c l sh.node, linked, node_at-some nodes1 r next there) refl;
      left = record {
        node = free_node_ne nodes2 c r sh.behind_avoids.0 ∙ put_node_self nodes1 r joined;
        behind =
            Behind-free_node nodes2 c r rs sh.behind_avoids.1
              (Behind-Same ed.nodes nodes2 r rs same sh.behind.1);
        before =
            Before-free_node nodes2 c r bs sh.before_avoids
              (Before-put_node nodes1 r joined r bs sh.disjoint.0 before1);
        first_is = new_end c r ed.first bs sh.first_is;
        last_is = sh.last_is;
        current_is = refl;
        behind_avoids = sh.behind_distinct.0;
        before_avoids = sh.disjoint.0;
        behind_distinct = sh.behind_distinct.1;
        before_distinct = sh.before_distinct;
        disjoint = sh.disjoint.1;
        disjoint' = Disjoint-tail (r, u) rs bs sh.disjoint';
        under = (sh.under.2.0, sh.under.1, sh.under.2.1);
      };
      index = refl;
      total = refl;
      marked = refl;
    }

-- The current line is the last of several.
remove-prev :
    (ed : Editor) (b : ℕ) (u : List ℕ) (bs : List Placed) (c : ℕ) (t : List ℕ)
    → Shows ed ((b, u) ∷ bs) c t []
    → Deleted ed ((b, u) ∷ bs) [] (remove ed c)
unfolding remove link_prev link_next
remove-prev ed b u bs c t sh =
    let l : Line = record { text = t; next = none; prev = some b } in
    let prev : Line = record { text = u; next = some c; prev = head_of bs } in
    let joined : Line = record prev { next = none } in
    let nodes1 = put_node ed.nodes b joined in
    record {
      result = record ed {
        nodes = free_node nodes1 c;
        last = some b;
        current = some b;
        total_lines = ed.total_lines - 1;
        modified = true;
      };
      run = rw (node_at-some ed.nodes c l sh.node, node_at-some ed.nodes b prev sh.before.0) refl;
      left = record {
        node = free_node_ne nodes1 c b sh.before_avoids.0 ∙ put_node_self ed.nodes b joined;
        behind = tt;
        before =
            Before-free_node nodes1 c b bs sh.before_avoids.1
              (Before-put_node ed.nodes b joined b bs sh.before_distinct.0 sh.before.1);
        first_is = sh.first_is;
        last_is = refl;
        current_is = refl;
        behind_avoids = tt;
        before_avoids = sh.before_distinct.0;
        behind_distinct = tt;
        before_distinct = sh.before_distinct.1;
        disjoint = tt;
        disjoint' = sh.disjoint'.1;
        under = (sh.under.1.0, sh.under.1.1, tt);
      };
      index = refl;
      total = refl;
      marked = refl;
    }

remove-only :
    (ed : Editor) (c : ℕ) (t : List ℕ) → Shows ed [] c t [] → Deleted ed [] [] (remove ed c)
unfolding remove link_prev link_next
remove-only ed c t sh =
    let l : Line = record { text = t; next = none; prev = none } in
    record {
      result = record ed {
        nodes = free_node ed.nodes c;
        first = none;
        last = none;
        current = none;
        total_lines = ed.total_lines - 1;
        modified = true;
      };
      run = rw (node_at-some ed.nodes c l sh.node) refl;
      left = (refl, refl, refl);
      index = refl;
      total = refl;
      marked = refl;
    }

-- delete_line takes the current line out of a list that is linked both ways, which leaves a list
-- that is linked both ways: the next line is current, or the one before where the last was deleted,
-- or none is left. The number of lines goes down by one, and the index stays in all cases.
pub delete_line_lem :
    (ed : Editor) (bs : List Placed) (c : ℕ) (t : List ℕ) (rs : List Placed)
    → Shows ed bs c t rs
    → Deleted ed bs rs (delete_line ed)
unfolding delete_line
delete_line_lem ed bs c t rs sh =
    let step : remove ed c ≡ delete_line ed = ground (arith, sh.current_is) in
    subst (Deleted ed bs rs) step (by_case bs rs sh)
  where
    by_case : (bs rs : List Placed) → Shows ed bs c t rs → Deleted ed bs rs (remove ed c)
    by_case bs ((r, u) ∷ rs) sh' = remove-next ed bs c t r u rs sh'
    by_case ((b, u) ∷ bs) [] sh' = remove-prev ed b u bs c t sh'
    by_case [] [] sh' = remove-only ed c t sh'
