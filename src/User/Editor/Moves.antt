-- ===== src/User/Editor/Moves.antt =====
-- goto_line of user/src/ed.c.
use foxtail.Common.{
  ℕ, suc, ◌+◌, ◌-◌, ◌/◌, ◌≤◌, ◌≡◌, refl, sym, ap, ◌∙◌, subst, false, some, List, [], ◌∷◌, arith,
  length, ok, ◌>>=◌, ltb, ◌||◌, Bool-cases, inl, inr,
}
use foxtail.User.Editor.{Line, Editor, node_at, deref, walk, goto_line}
use foxtail.User.Editor.Zipper.{Placed, head_of, end_of, Shows}
use foxtail.User.Editor.Steps.{moved, whole, Reached, forward_lem, back_lem, rewind, length-whole}

-- The two loops lead to the target where the index of the start is right.
walk_lem :
    (target : ℕ) (ed : Editor) (bs : List Placed) (c : ℕ) (t : List ℕ) (rs : List Placed)
    → Shows ed bs c t rs
    → ed.current_line_idx ≡ length bs + 1
    → 1 ≤ target
    → target ≤ length bs + 1 + length rs
    → Reached ed bs c t rs (target - 1) target (walk target ed)
unfolding walk
walk_lem target ed bs c t rs sh idx low high =
    let f = forward_lem (target - ed.current_line_idx) ed bs c t rs sh (omega arith) in
    let rounds : ℕ = f.result.current_line_idx - target in
    let b =
      back_lem rounds f.result f.bs' f.c' f.t' f.rs' f.shows (omega (arith, f.index, f.position)) in
    let l : Line = record { text = b.t'; next = head_of b.rs'; prev = head_of b.bs' } in
    record {
      result = b.result;
      run = rw (f.run, b.run) (shown b.result b.c' l b.shows.current_is b.shows.node);
      bs' = b.bs';
      c' = b.c';
      t' = b.t';
      rs' = b.rs';
      shows = b.shows;
      lines = b.lines ∙ f.lines;
      position = omega (arith, b.position, f.position, f.index);
      index = omega (arith, b.index, f.index);
      total = b.total ∙ f.total;
    }
  where
    shown :
        (ed : Editor) (c : ℕ) (l : Line)
        → ed.current ≡ some c
        → ed.nodes c ≡ some l
        → (deref ed.current >>= λ c. node_at ed.nodes c >>= λ l. ok ed) ≡ ok ed
    shown ed c l cur at = ground arith

-- The editor shows a list that is linked both ways, the index is the current line's number, and the
-- number of lines is right. Then goto_line goes to the line with the number `target` of the same
-- list, if there is one, whichever end it starts from, and the index is that number.
pub goto_line_lem :
    (ed : Editor) (target : ℕ) (bs : List Placed) (c : ℕ) (t : List ℕ) (rs : List Placed)
    → Shows ed bs c t rs
    → ed.current_line_idx ≡ length bs + 1
    → ed.total_lines ≡ length bs + 1 + length rs
    → 1 ≤ target
    → target ≤ ed.total_lines
    → Reached ed bs c t rs (target - 1) target (goto_line ed target)
unfolding goto_line
goto_line_lem ed target bs c t rs sh idx total low high =
    let inside : (ltb target 1 || ltb ed.total_lines target) ≡ false = ground arith in
    elim (Bool-cases (ltb target (ed.current_line_idx / 2))) [
      | inl near ↦
          let (t', rs', start, same) = rewind ed bs c t rs 1 sh in
          let count : length (whole bs ((c, t) ∷ rs)) ≡ suc (length rs') =
            ap (λ (l : List Placed). length l) same in
          let sum = length-whole bs ((c, t) ∷ rs) in
          let w =
            walk_lem target (moved ed (some (end_of c bs)) 1) [] (end_of c bs) t' rs' start refl low
              (omega (arith, count, sum, total, high)) in
          let first : walk target (moved ed ed.first 1)
              ≡ walk target (moved ed (some (end_of c bs)) 1) =
            ap (λ p. walk target (moved ed p 1)) sh.first_is in
          record {
            result = w.result;
            run = rw (inside, near) (first ∙ w.run);
            bs' = w.bs';
            c' = w.c';
            t' = w.t';
            rs' = w.rs';
            shows = w.shows;
            lines = w.lines ∙ sym same;
            position = w.position;
            index = w.index;
            total = w.total;
          }
      | inr far ↦
          let w = walk_lem target ed bs c t rs sh idx low (omega (arith, total, high)) in
          subst (Reached ed bs c t rs (target - 1) target) (rw (inside, far) refl) w
    ]
