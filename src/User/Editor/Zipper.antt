-- ===== src/User/Editor/Zipper.antt =====
-- The linked list of user/src/ed.c as a zipper: the lines before the current one, nearest first, the
-- current one, and the lines behind it.
use foxtail.Common.{
  ℕ, ◌≤◌, ◌<◌, ◌≡◌, ◌≢◌, refl, sym, ◌∙◌, Option, none, some, List, [], ◌∷◌, arith, ok,
}
use foxtail.User.Editor.{
  Line, Nodes, Editor, put_node, free_node, node_at, link_prev, link_next, unless_linked,
}

-- The address of a line, with its text.
abbrev pub Placed : Type 0
Placed = ℕ × List ℕ

-- The first address of a list of lines, or null.
abbrev pub head_of : List Placed → Option ℕ
head_of [] = none
head_of ((i, t) ∷ ls) = some i

-- The last address, where `c` stands before the list.
abbrev pub end_of : ℕ → List Placed → ℕ
end_of c [] = c
end_of c ((i, t) ∷ ls) = end_of i ls

abbrev pub texts : List Placed → List (List ℕ)
texts [] = []
texts ((i, t) ∷ ls) = t ∷ texts ls

-- The lines behind line `p`, and those before line `n`.
abbrev pub Behind : Nodes → ℕ → List Placed → Type 0
Behind nodes p [] = Unit {0}
Behind nodes p ((i, t) ∷ ls) =
    (nodes i ≡ some (record { text = t; next = head_of ls; prev = some p })) × Behind nodes i ls

abbrev pub Before : Nodes → ℕ → List Placed → Type 0
Before nodes n [] = Unit {0}
Before nodes n ((i, t) ∷ ls) =
    (nodes i ≡ some (record { text = t; next = some n; prev = head_of ls })) × Before nodes i ls

-- The address is none of the list's; no address of the list stands there twice; two lists share none.
abbrev pub Avoids : ℕ → List Placed → Type 0
Avoids j [] = Unit {0}
Avoids j ((i, t) ∷ ls) = (j ≢ i) × Avoids j ls

abbrev pub Distinct : List Placed → Type 0
Distinct [] = Unit {0}
Distinct ((i, t) ∷ ls) = Avoids i ls × Distinct ls

abbrev pub Disjoint : List Placed → List Placed → Type 0
Disjoint ks [] = Unit {0}
Disjoint ks ((i, t) ∷ ls) = Avoids i ks × Disjoint ks ls

-- Every address is below `n`.
abbrev pub Under : ℕ → List Placed → Type 0
Under n [] = Unit {0}
Under n ((i, t) ∷ ls) = (i < n) × Under n ls

-- The editor shows the line `t` at address `c`, with `bs` before and `as` behind it.
pub record Shows (ed : Editor) (bs : List Placed) (c : ℕ) (t : List ℕ) (rs : List Placed)
    : Type 0 where
  pub node : ed.nodes c ≡ some (record { text = t; next = head_of rs; prev = head_of bs })
  pub behind : Behind ed.nodes c rs
  pub before : Before ed.nodes c bs
  pub first_is : ed.first ≡ some (end_of c bs)
  pub last_is : ed.last ≡ some (end_of c rs)
  pub current_is : ed.current ≡ some c
  pub behind_avoids : Avoids c rs
  pub before_avoids : Avoids c bs
  pub behind_distinct : Distinct rs
  pub before_distinct : Distinct bs
  pub disjoint : Disjoint bs rs
  pub disjoint' : Disjoint rs bs
  pub under : (c < ed.fresh) × Under ed.fresh bs × Under ed.fresh rs

-- A write at an address that a list avoids leaves the list.
pub Behind-put_node :
    (nodes : Nodes) (j : ℕ) (l : Line) (p : ℕ) (ls : List Placed)
    → Avoids j ls
    → Behind nodes p ls
    → Behind (put_node nodes j l) p ls
Behind-put_node nodes j l p [] av b = tt
Behind-put_node nodes j l p ((i, t) ∷ ls) (ne, av) (at, b) =
    (ground arith, Behind-put_node nodes j l i ls av b)

pub Before-put_node :
    (nodes : Nodes) (j : ℕ) (l : Line) (n : ℕ) (ls : List Placed)
    → Avoids j ls
    → Before nodes n ls
    → Before (put_node nodes j l) n ls
Before-put_node nodes j l n [] av b = tt
Before-put_node nodes j l n ((i, t) ∷ ls) (ne, av) (at, b) =
    (ground arith, Before-put_node nodes j l i ls av b)

pub Behind-free_node :
    (nodes : Nodes) (j p : ℕ) (ls : List Placed)
    → Avoids j ls
    → Behind nodes p ls
    → Behind (free_node nodes j) p ls
Behind-free_node nodes j p [] av b = tt
Behind-free_node nodes j p ((i, t) ∷ ls) (ne, av) (at, b) =
    (ground arith, Behind-free_node nodes j i ls av b)

pub Before-free_node :
    (nodes : Nodes) (j n : ℕ) (ls : List Placed)
    → Avoids j ls
    → Before nodes n ls
    → Before (free_node nodes j) n ls
Before-free_node nodes j n [] av b = tt
Before-free_node nodes j n ((i, t) ∷ ls) (ne, av) (at, b) =
    (ground arith, Before-free_node nodes j i ls av b)

-- A fresh address is none of the list's.
pub Under-Avoids : (n : ℕ) (ls : List Placed) → Under n ls → Avoids n ls
Under-Avoids n [] u = tt
Under-Avoids n ((i, t) ∷ ls) (lt, u) =
    let ne : n ≢ i = λ e. absurd (omega arith) in (ne, Under-Avoids n ls u)

pub Under-mono : (n m : ℕ) (ls : List Placed) → n ≤ m → Under n ls → Under m ls
Under-mono n m [] le u = tt
Under-mono n m ((i, t) ∷ ls) le (lt, u) = (omega arith, Under-mono n m ls le u)

-- What relinking the first line of a list to another neighbour does.
pub link_prev-Behind :
    (nodes : Nodes) (p q : ℕ) (ls : List Placed)
    → Distinct ls
    → Behind nodes p ls
    → (nodes' : Nodes) × (link_prev nodes (head_of ls) (some q) ≡ ok nodes')
      × Behind nodes' q ls
      × ((j : ℕ) → Avoids j ls → nodes' j ≡ nodes j)
unfolding link_prev
link_prev-Behind nodes p q [] d b = (nodes, refl, tt, λ j av. refl)
link_prev-Behind nodes p q ((i, t) ∷ ls) (av, d) (at, b) =
    let l : Line = record { text = t; next = head_of ls; prev = some q } in
    (
      put_node nodes i l,
      ground arith,
      (ground arith, Behind-put_node nodes i l i ls av b),
      λ j (ne, _). other nodes i j l ne,
    )
  where
    other : (nodes : Nodes) (i j : ℕ) (l : Line) → j ≢ i → put_node nodes i l j ≡ nodes j
    other nodes i j l ne = ground arith

pub link_next-Before :
    (nodes : Nodes) (n q : ℕ) (ls : List Placed)
    → Distinct ls
    → Before nodes n ls
    → (nodes' : Nodes) × (link_next nodes (head_of ls) (some q) ≡ ok nodes')
      × Before nodes' q ls
      × ((j : ℕ) → Avoids j ls → nodes' j ≡ nodes j)
unfolding link_next
link_next-Before nodes n q [] d b = (nodes, refl, tt, λ j av. refl)
link_next-Before nodes n q ((i, t) ∷ ls) (av, d) (at, b) =
    let l : Line = record { text = t; next = some q; prev = head_of ls } in
    (
      put_node nodes i l,
      ground arith,
      (ground arith, Before-put_node nodes i l i ls av b),
      λ j (ne, _). other nodes i j l ne,
    )
  where
    other : (nodes : Nodes) (i j : ℕ) (l : Line) → j ≢ i → put_node nodes i l j ≡ nodes j
    other nodes i j l ne = ground arith

-- Two memories agree at every address of the list.
abbrev pub Same : Nodes → Nodes → List Placed → Type 0
Same nodes nodes' [] = Unit {0}
Same nodes nodes' ((i, t) ∷ ls) = (nodes' i ≡ nodes i) × Same nodes nodes' ls

pub Behind-Same :
    (nodes nodes' : Nodes) (p : ℕ) (ls : List Placed)
    → Same nodes nodes' ls
    → Behind nodes p ls
    → Behind nodes' p ls
Behind-Same nodes nodes' p [] s b = tt
Behind-Same nodes nodes' p ((i, t) ∷ ls) (e, s) (at, b) =
    (e ∙ at, Behind-Same nodes nodes' i ls s b)

pub Before-Same :
    (nodes nodes' : Nodes) (n : ℕ) (ls : List Placed)
    → Same nodes nodes' ls
    → Before nodes n ls
    → Before nodes' n ls
Before-Same nodes nodes' n [] s b = tt
Before-Same nodes nodes' n ((i, t) ∷ ls) (e, s) (at, b) =
    (e ∙ at, Before-Same nodes nodes' i ls s b)

-- A change within the addresses of `ks` leaves a list that shares none with it.
pub Same-of_Disjoint :
    (nodes nodes' : Nodes) (ks ls : List Placed)
    → ((j : ℕ) → Avoids j ks → nodes' j ≡ nodes j)
    → Disjoint ks ls
    → Same nodes nodes' ls
Same-of_Disjoint nodes nodes' ks [] h d = tt
Same-of_Disjoint nodes nodes' ks ((i, t) ∷ ls) h (av, d) =
    (h i av, Same-of_Disjoint nodes nodes' ks ls h d)

pub Same-put_node :
    (nodes : Nodes) (j : ℕ) (l : Line) (ls : List Placed)
    → Avoids j ls
    → Same nodes (put_node nodes j l) ls
Same-put_node nodes j l [] av = tt
Same-put_node nodes j l ((i, t) ∷ ls) (ne, av) = (ground arith, Same-put_node nodes j l ls av)

pub Same-trans : (a b c : Nodes) (ls : List Placed) → Same a b ls → Same b c ls → Same a c ls
Same-trans a b c [] s s' = tt
Same-trans a b c ((i, t) ∷ ls) (e, s) (e', s') = (e' ∙ e, Same-trans a b c ls s s')

pub Disjoint-cons :
    (i : ℕ) (t : List ℕ) (ks ls : List Placed)
    → Avoids i ls
    → Disjoint ks ls
    → Disjoint ((i, t) ∷ ks) ls
Disjoint-cons i t ks [] av d = tt
Disjoint-cons i t ks ((j, u) ∷ ls) (ne, av) (av', d) =
    (((λ e. ne (sym e)), av'), Disjoint-cons i t ks ls av d)

pub node_at-some : (nodes : Nodes) (i : ℕ) (l : Line) → nodes i ≡ some l → node_at nodes i ≡ ok l
node_at-some nodes i l at = ground arith

pub put_node_self : (nodes : Nodes) (i : ℕ) (l : Line) → put_node nodes i l i ≡ some l
put_node_self nodes i l = ground arith

pub put_node_ne : (nodes : Nodes) (i j : ℕ) (l : Line) → i ≢ j → put_node nodes i l j ≡ nodes j
put_node_ne nodes i j l ne = ground arith

-- The end of the list with another line before it.
pub new_end :
    (c n : ℕ) (old : Option ℕ) (ls : List Placed)
    → old ≡ some (end_of c ls)
    → unless_linked (head_of ls) (some n) old ≡ some (end_of n ls)
new_end c n old [] e = refl
new_end c n old ((i, t) ∷ ls) e = e

pub Disjoint-tail : (k : Placed) (ks ls : List Placed) → Disjoint (k ∷ ks) ls → Disjoint ks ls
Disjoint-tail k ks [] d = tt
Disjoint-tail k ks ((i, t) ∷ ls) ((_, av), d) = (av, Disjoint-tail k ks ls d)
