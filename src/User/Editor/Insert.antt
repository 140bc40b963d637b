-- ===== src/User/Editor/Insert.antt =====
-- insert_after and insert_before of user/src/ed.c.
use foxtail.Common.{
  ℕ, ◌+◌, ◌≡◌, ◌≢◌, refl, sym, ◌∙◌, subst, some, List, ◌∷◌, arith, Outcome, ok, true,
}
use foxtail.User.Editor.{
  Line, Editor, put_node, insert_after, insert_before, insert_behind, insert_ahead, unless_linked,
}
use foxtail.User.Editor.Zipper.{
  Placed, head_of, Shows, Behind-put_node, Before-put_node, Under-Avoids, Under-mono,
  link_prev-Behind, link_next-Before, Behind-Same, Before-Same, Same, Same-of_Disjoint,
  Same-put_node, Same-trans, Disjoint-cons, node_at-some, put_node_self, put_node_ne, new_end,
}

-- What an insertion leaves: the new line is current, and the counters are `idx` and one more.
pub record Inserted (ed : Editor) (bs : List Placed) (s : List ℕ) (rs : List Placed) (idx : ℕ)
    (r : Outcome Editor) : Type 0 where
  pub result : Editor
  pub run : r ≡ ok result
  pub shows : Shows result bs ed.fresh s rs
  pub index : result.current_line_idx ≡ idx
  pub total : result.total_lines ≡ ed.total_lines + 1
  pub marked : result.modified ≡ true

module _ (ed : Editor) (bs : List Placed) (c : ℕ) (t : List ℕ) (rs : List Placed) (s : List ℕ)
    (sh : Shows ed bs c t rs) where
  abbrev n : ℕ
  n = ed.fresh

  fresh-ne : n ≢ c
  fresh-ne e = omega (arith, sh.under.0)

  pub insert_behind_lem :
      Inserted ed ((c, t) ∷ bs) s rs (ed.current_line_idx + 1) (insert_behind ed c s)
  unfolding insert_behind
  insert_behind_lem =
      let curr : Line = record { text = t; next = head_of rs; prev = head_of bs } in
      let new : Line = record { text = s; next = head_of rs; prev = some c } in
      let made = put_node ed.nodes n new in
      let (nodes1, linked, behind1, keeps) =
        link_prev-Behind made c n rs sh.behind_distinct
          (Behind-put_node ed.nodes n new c rs (Under-Avoids n rs sh.under.2) sh.behind) in
      let there : nodes1 c ≡ some curr =
        keeps c sh.behind_avoids ∙ put_node_ne ed.nodes n c new fresh-ne ∙ sh.node in
      let joined : Line = record curr { next = some n } in
      let nodes2 = put_node nodes1 c joined in
      let same : Same ed.nodes nodes2 bs =
        Same-trans ed.nodes nodes1 nodes2 bs
          (Same-trans ed.nodes made nodes1 bs
            (Same-put_node ed.nodes n new bs (Under-Avoids n bs sh.under.1))
            (Same-of_Disjoint made nodes1 rs bs keeps sh.disjoint'))
          (Same-put_node nodes1 c joined bs sh.before_avoids) in
      record {
        result = record ed {
          nodes = nodes2;
          fresh = n + 1;
          last = unless_linked (head_of rs) (some n) ed.last;
          current = some n;
          current_line_idx = ed.current_line_idx + 1;
          total_lines = ed.total_lines + 1;
          modified = true;
        };
        run =
            rw (node_at-some ed.nodes c curr sh.node, linked, node_at-some nodes1 c curr there)
              refl;
        shows = record {
          node =
              put_node_ne nodes1 c n joined (λ e. fresh-ne (sym e))
              ∙ keeps n (Under-Avoids n rs sh.under.2)
              ∙ put_node_self ed.nodes n new;
          behind = Behind-put_node nodes1 c joined n rs sh.behind_avoids behind1;
          before = (put_node_self nodes1 c joined, Before-Same ed.nodes nodes2 c bs same sh.before);
          first_is = sh.first_is;
          last_is = new_end c n ed.last rs sh.last_is;
          current_is = refl;
          behind_avoids = Under-Avoids n rs sh.under.2;
          before_avoids = (fresh-ne, Under-Avoids n bs sh.under.1);
          behind_distinct = sh.behind_distinct;
          before_distinct = (sh.before_avoids, sh.before_distinct);
          disjoint = Disjoint-cons c t bs rs sh.behind_avoids sh.disjoint;
          disjoint' = (sh.behind_avoids, sh.disjoint');
          under = (
            omega arith,
            (omega (arith, sh.under.0), Under-mono n (n + 1) bs (omega arith) sh.under.1),
            Under-mono n (n + 1) rs (omega arith) sh.under.2,
          );
        };
        index = refl;
        total = refl;
        marked = refl;
      }

  insert_ahead_lem : Inserted ed bs s ((c, t) ∷ rs) ed.current_line_idx (insert_ahead ed c s)
  unfolding insert_ahead
  insert_ahead_lem =
      let curr : Line = record { text = t; next = head_of rs; prev = head_of bs } in
      let new : Line = record { text = s; next = some c; prev = head_of bs } in
      let made = put_node ed.nodes n new in
      let (nodes1, linked, before1, keeps) =
        link_next-Before made c n bs sh.before_distinct
          (Before-put_node ed.nodes n new c bs (Under-Avoids n bs sh.under.1) sh.before) in
      let there : nodes1 c ≡ some curr =
        keeps c sh.before_avoids ∙ put_node_ne ed.nodes n c new fresh-ne ∙ sh.node in
      let joined : Line = record curr { prev = some n } in
      let nodes2 = put_node nodes1 c joined in
      let same : Same ed.nodes nodes2 rs =
        Same-trans ed.nodes nodes1 nodes2 rs
          (Same-trans ed.nodes made nodes1 rs
            (Same-put_node ed.nodes n new rs (Under-Avoids n rs sh.under.2))
            (Same-of_Disjoint made nodes1 bs rs keeps sh.disjoint))
          (Same-put_node nodes1 c joined rs sh.behind_avoids) in
      record {
        result = record ed {
          nodes = nodes2;
          fresh = n + 1;
          first = unless_linked (head_of bs) (some n) ed.first;
          current = some n;
          total_lines = ed.total_lines + 1;
          modified = true;
        };
        run =
            rw (node_at-some ed.nodes c curr sh.node, linked, node_at-some nodes1 c curr there)
              refl;
        shows = record {
          node =
              put_node_ne nodes1 c n joined (λ e. fresh-ne (sym e))
              ∙ keeps n (Under-Avoids n bs sh.under.1)
              ∙ put_node_self ed.nodes n new;
          behind = (put_node_self nodes1 c joined, Behind-Same ed.nodes nodes2 c rs same sh.behind);
          before = Before-put_node nodes1 c joined n bs sh.before_avoids before1;
          first_is = new_end c n ed.first bs sh.first_is;
          last_is = sh.last_is;
          current_is = refl;
          behind_avoids = (fresh-ne, Under-Avoids n rs sh.under.2);
          before_avoids = Under-Avoids n bs sh.under.1;
          behind_distinct = (sh.behind_avoids, sh.behind_distinct);
          before_distinct = sh.before_distinct;
          disjoint = (sh.before_avoids, sh.disjoint);
          disjoint' = Disjoint-cons c t rs bs sh.before_avoids sh.disjoint';
          under = (
            omega arith,
            Under-mono n (n + 1) bs (omega arith) sh.under.1,
            (omega (arith, sh.under.0), Under-mono n (n + 1) rs (omega arith) sh.under.2),
          );
        };
        index = refl;
        total = refl;
        marked = refl;
      }

  -- In a list that is linked both ways, insert_after puts the new line right behind the current one
  -- and makes it current. The list is linked both ways again, and its other lines keep their text
  -- and their order. The index and the number of lines grow by one.
  pub insert_after_lem :
      Inserted ed ((c, t) ∷ bs) s rs (ed.current_line_idx + 1) (insert_after ed s)
  unfolding insert_after
  insert_after_lem =
      let step : insert_behind ed c s ≡ insert_after ed s =
        ground (arith, sh.first_is, sh.current_is) in
      subst (Inserted ed ((c, t) ∷ bs) s rs (ed.current_line_idx + 1)) step insert_behind_lem

  -- In a list that is linked both ways, insert_before puts the new line right before the current one
  -- and makes it current. The index stays, and the number of lines grows by one.
  pub insert_before_lem : Inserted ed bs s ((c, t) ∷ rs) ed.current_line_idx (insert_before ed s)
  unfolding insert_before
  insert_before_lem =
      let step : insert_ahead ed c s ≡ insert_before ed s =
        ground (arith, sh.first_is, sh.current_is) in
      subst (Inserted ed bs s ((c, t) ∷ rs) ed.current_line_idx) step insert_ahead_lem
