-- ===== src/User/Editor/Steps.antt =====
-- Going from line to line in user/src/ed.c, one line at a time.
use foxtail.Common.{
  ℕ, zero, suc, ◌+◌, ◌-◌, ◌≤◌, ◌≡◌, refl, sym, ◌∙◌, subst, Option, some, List, [], ◌∷◌, arith,
  length, Outcome, ok, ◌>>=◌,
}
use foxtail.User.Editor.{Line, Editor, node_at, deref, go_forward, go_back}
use foxtail.User.Editor.Zipper.{Placed, head_of, end_of, Shows, Disjoint-cons, Disjoint-tail}

-- The editor with its current line and index moved.
abbrev pub moved : Editor → Option ℕ → ℕ → Editor
moved ed p i = record ed { current = p; current_line_idx = i }

-- All lines from the first on: `bs` turned round before `ls`.
abbrev pub whole : List Placed → List Placed → List Placed
whole [] ls = ls
whole (b ∷ bs) ls = whole bs (b ∷ ls)

forward-Shows :
    (ed : Editor) (bs : List Placed) (c : ℕ) (t : List ℕ) (r : ℕ) (u : List ℕ) (rs : List Placed)
    (i : ℕ)
    → Shows ed bs c t ((r, u) ∷ rs)
    → Shows (moved ed (some r) i) ((c, t) ∷ bs) r u rs
forward-Shows ed bs c t r u rs i sh = record {
  node = sh.behind.0;
  behind = sh.behind.1;
  before = (sh.node, sh.before);
  first_is = sh.first_is;
  last_is = sh.last_is;
  current_is = refl;
  behind_avoids = sh.behind_distinct.0;
  before_avoids = ((λ e. sh.behind_avoids.0 (sym e)), sh.disjoint.0);
  behind_distinct = sh.behind_distinct.1;
  before_distinct = (sh.before_avoids, sh.before_distinct);
  disjoint = Disjoint-cons c t bs rs sh.behind_avoids.1 sh.disjoint.1;
  disjoint' = (sh.behind_avoids.1, Disjoint-tail (r, u) rs bs sh.disjoint');
  under = (sh.under.2.0, (sh.under.0, sh.under.1), sh.under.2.1);
}

back-Shows :
    (ed : Editor) (b : ℕ) (u : List ℕ) (bs : List Placed) (c : ℕ) (t : List ℕ) (rs : List Placed)
    (i : ℕ)
    → Shows ed ((b, u) ∷ bs) c t rs
    → Shows (moved ed (some b) i) bs b u ((c, t) ∷ rs)
back-Shows ed b u bs c t rs i sh = record {
  node = sh.before.0;
  behind = (sh.node, sh.behind);
  before = sh.before.1;
  first_is = sh.first_is;
  last_is = sh.last_is;
  current_is = refl;
  behind_avoids = ((λ e. sh.before_avoids.0 (sym e)), sh.disjoint'.0);
  before_avoids = sh.before_distinct.0;
  behind_distinct = (sh.behind_avoids, sh.behind_distinct);
  before_distinct = sh.before_distinct.1;
  disjoint = (sh.before_avoids.1, Disjoint-tail (b, u) bs rs sh.disjoint);
  disjoint' = Disjoint-cons c t rs bs sh.before_avoids.1 sh.disjoint'.1;
  under = (sh.under.1.0, sh.under.1.1, (sh.under.0, sh.under.2));
}

-- Where a move has led: the editor shows another line of the same list.
pub record Reached (ed : Editor) (bs : List Placed) (c : ℕ) (t : List ℕ) (rs : List Placed)
    (pos idx : ℕ) (r : Outcome Editor) : Type 0 where
  pub result : Editor
  pub run : r ≡ ok result
  pub bs' : List Placed
  pub c' : ℕ
  pub t' : List ℕ
  pub rs' : List Placed
  pub shows : Shows result bs' c' t' rs'
  pub lines : whole bs' ((c', t') ∷ rs') ≡ whole bs ((c, t) ∷ rs)
  pub position : length bs' ≡ pos
  pub index : result.current_line_idx ≡ idx
  pub total : result.total_lines ≡ ed.total_lines

forward_step :
    (ed : Editor) (c : ℕ) (l : Line) (go : Editor → Outcome Editor)
    → ed.current ≡ some c
    → ed.nodes c ≡ some l
    → (deref ed.current >>= λ c.
        node_at ed.nodes c >>= λ l. go (moved ed l.next (ed.current_line_idx + 1)))
      ≡ go (moved ed l.next (ed.current_line_idx + 1))
forward_step ed c l go cur at = ground arith

back_step :
    (ed : Editor) (c : ℕ) (l : Line) (go : Editor → Outcome Editor)
    → ed.current ≡ some c
    → ed.nodes c ≡ some l
    → (deref ed.current >>= λ c.
        node_at ed.nodes c >>= λ l. go (moved ed l.prev (ed.current_line_idx - 1)))
      ≡ go (moved ed l.prev (ed.current_line_idx - 1))
back_step ed c l go cur at = ground arith

pub forward_lem :
    (rounds : ℕ) (ed : Editor) (bs : List Placed) (c : ℕ) (t : List ℕ) (rs : List Placed)
    → Shows ed bs c t rs
    → rounds ≤ length rs
    → Reached ed bs c t rs
        (length bs + rounds)
        (ed.current_line_idx + rounds)
        (go_forward rounds ed)
unfolding go_forward
forward_lem zero ed bs c t rs sh le = record {
  result = ed;
  run = refl;
  bs' = bs;
  c' = c;
  t' = t;
  rs' = rs;
  shows = sh;
  lines = refl;
  position = omega arith;
  index = omega arith;
  total = refl;
}
forward_lem (suc rounds) ed bs c t [] sh le = absurd (omega arith)
forward_lem (suc rounds) ed bs c t ((r, u) ∷ rs) sh le =
    let i : ℕ = ed.current_line_idx + 1 in
    let l : Line = record { text = t; next = some r; prev = head_of bs } in
    let m =
      forward_lem rounds (moved ed (some r) i) ((c, t) ∷ bs) r u rs
        (forward-Shows ed bs c t r u rs i sh) (omega arith) in
    record {
      result = m.result;
      run = forward_step ed c l (go_forward rounds) sh.current_is sh.node ∙ m.run;
      bs' = m.bs';
      c' = m.c';
      t' = m.t';
      rs' = m.rs';
      shows = m.shows;
      lines = m.lines;
      position = omega (arith, m.position);
      index = omega (arith, m.index);
      total = m.total;
    }

pub back_lem :
    (rounds : ℕ) (ed : Editor) (bs : List Placed) (c : ℕ) (t : List ℕ) (rs : List Placed)
    → Shows ed bs c t rs
    → rounds ≤ length bs
    → Reached ed bs c t rs (length bs - rounds) (ed.current_line_idx - rounds) (go_back rounds ed)
unfolding go_back
back_lem zero ed bs c t rs sh le = record {
  result = ed;
  run = refl;
  bs' = bs;
  c' = c;
  t' = t;
  rs' = rs;
  shows = sh;
  lines = refl;
  position = omega arith;
  index = omega arith;
  total = refl;
}
back_lem (suc rounds) ed [] c t rs sh le = absurd (omega arith)
back_lem (suc rounds) ed ((b, u) ∷ bs) c t rs sh le =
    let i : ℕ = ed.current_line_idx - 1 in
    let l : Line = record { text = t; next = head_of rs; prev = some b } in
    let m =
      back_lem rounds (moved ed (some b) i) bs b u ((c, t) ∷ rs) (back-Shows ed b u bs c t rs i sh)
        (omega arith) in
    record {
      result = m.result;
      run = back_step ed c l (go_back rounds) sh.current_is sh.node ∙ m.run;
      bs' = m.bs';
      c' = m.c';
      t' = m.t';
      rs' = m.rs';
      shows = m.shows;
      lines = m.lines;
      position = omega (arith, m.position);
      index = omega (arith, m.index);
      total = m.total;
    }

-- The list as seen from its first line.
pub rewind :
    (ed : Editor) (bs : List Placed) (c : ℕ) (t : List ℕ) (rs : List Placed) (i : ℕ)
    → Shows ed bs c t rs
    → (t' : List ℕ) × (rs' : List Placed) × Shows
        (moved ed (some (end_of c bs)) i)
        []
        (end_of c bs)
        t'
        rs'
      × (whole bs ((c, t) ∷ rs) ≡ (end_of c bs, t') ∷ rs')
rewind ed [] c t rs i sh =
    (t, rs, subst (λ p. Shows (moved ed p i) [] c t rs) sh.current_is (kept sh), refl)
  where
    kept : Shows ed [] c t rs → Shows (moved ed ed.current i) [] c t rs
    kept sh' = record {
      node = sh'.node;
      behind = sh'.behind;
      before = sh'.before;
      first_is = sh'.first_is;
      last_is = sh'.last_is;
      current_is = sh'.current_is;
      behind_avoids = sh'.behind_avoids;
      before_avoids = sh'.before_avoids;
      behind_distinct = sh'.behind_distinct;
      before_distinct = sh'.before_distinct;
      disjoint = sh'.disjoint;
      disjoint' = sh'.disjoint';
      under = sh'.under;
    }
rewind ed ((b, u) ∷ bs) c t rs i sh =
    rewind (moved ed (some b) i) bs b u ((c, t) ∷ rs) i (back-Shows ed b u bs c t rs i sh)

pub length-whole : (bs ls : List Placed) → length (whole bs ls) ≡ length bs + length ls
length-whole [] ls = omega arith
length-whole (b ∷ bs) ls = omega (arith, length-whole bs (b ∷ ls))
