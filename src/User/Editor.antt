-- ===== src/User/Editor.antt =====
-- The line editor of user/src/ed.c. Lines are nodes of a doubly linked list; a node's address is a
-- number, and malloc gives the next one. That freed memory is used again changes nothing, since the
-- editor keeps no pointer to it; memory is taken not to run out. Messages are left out, and the
-- counters do not reach the limits of an `int`.
pub mod Zipper
pub mod Insert
pub mod Delete
pub mod Steps
pub mod Moves
pub mod Files
pub mod Commands
use foxtail.Common.{
  ℕ, zero, suc, ◌+◌, ◌-◌, ◌*◌, ◌/◌, ◌%◌, Bool, true, false, Option, none, some, List, [], ◌∷◌, ◌++◌,
  length, Outcome, ok, fault, spin, ◌>>=◌, ltb, leb, ◌==◌, ◌&&◌, ◌||◌, if◌then◌else◌,
}

pub record Line : Type 0 where
  pub text : List ℕ
  pub next : Option ℕ
  pub prev : Option ℕ

abbrev pub Nodes : Type 0
Nodes = ℕ → Option Line

-- `fresh` is the address that malloc gives next.
pub record Editor : Type 0 where
  pub nodes : Nodes
  pub fresh : ℕ
  pub first : Option ℕ
  pub current : Option ℕ
  pub last : Option ℕ
  pub current_line_idx : ℕ
  pub total_lines : ℕ
  pub modified : Bool

abbrev pub put_node : Nodes → ℕ → Line → Nodes
put_node nodes i l j = if i == j then some l else nodes j

abbrev pub free_node : Nodes → ℕ → Nodes
free_node nodes i j = if i == j then none else nodes j

-- A read through a pointer; a null pointer, or memory that is freed, is a fault.
abbrev pub node_at : Nodes → ℕ → Outcome Line
node_at nodes i = elim (nodes i) [ none ↦ fault | some l ↦ ok l ]

abbrev pub deref : Option ℕ → Outcome ℕ
deref none = fault
deref (some i) = ok i

-- `p->prev = q` and `p->next = q`
abbrev pub set_prev : Nodes → ℕ → Option ℕ → Outcome Nodes
set_prev nodes i q = node_at nodes i >>= λ l. ok (put_node nodes i (record l { prev = q }))

abbrev pub set_next : Nodes → ℕ → Option ℕ → Outcome Nodes
set_next nodes i q = node_at nodes i >>= λ l. ok (put_node nodes i (record l { next = q }))

-- `if (p) p->prev = q`, and the same with `next`.
unfoldable pub link_prev : Nodes → Option ℕ → Option ℕ → Outcome Nodes
link_prev nodes none q = ok nodes
link_prev nodes (some i) q = set_prev nodes i q

unfoldable pub link_next : Nodes → Option ℕ → Option ℕ → Outcome Nodes
link_next nodes none q = ok nodes
link_next nodes (some i) q = set_next nodes i q

-- `p ? p : q`
abbrev pub or_else : Option ℕ → Option ℕ → Option ℕ
or_else none q = q
or_else (some i) q = some i

-- `first` and `last` change where there is no neighbour.
abbrev pub unless_linked : Option ℕ → Option ℕ → Option ℕ → Option ℕ
unless_linked none q old = q
unless_linked (some i) q old = old

-- make_editor
unfoldable pub make_editor : Editor
make_editor = record {
  nodes = λ i. none;
  fresh = 0;
  first = none;
  current = none;
  last = none;
  current_line_idx = 0;
  total_lines = 0;
  modified = false;
}

-- The new line is the only one.
unfoldable pub insert_only : Editor → List ℕ → Editor
insert_only ed text = record ed {
  nodes = put_node ed.nodes ed.fresh (record { text = text; next = none; prev = none });
  fresh = ed.fresh + 1;
  first = some ed.fresh;
  current = some ed.fresh;
  last = some ed.fresh;
  current_line_idx = 1;
  total_lines = ed.total_lines + 1;
  modified = true;
}

-- The new line behind line `c`.
unfoldable pub insert_behind : Editor → ℕ → List ℕ → Outcome Editor
unfolding link_prev
insert_behind ed c text = node_at ed.nodes c >>= λ curr.
    let n = ed.fresh in
    let made = put_node ed.nodes n (record { text = text; next = curr.next; prev = some c }) in
    link_prev made curr.next (some n) >>= λ nodes. set_next nodes c (some n) >>= λ nodes'.
    ok (record ed {
      nodes = nodes';
      fresh = n + 1;
      last = unless_linked curr.next (some n) ed.last;
      current = some n;
      current_line_idx = ed.current_line_idx + 1;
      total_lines = ed.total_lines + 1;
      modified = true;
    })

unfoldable pub insert_after : Editor → List ℕ → Outcome Editor
insert_after ed text = elim ed.first [
  | none ↦ ok (insert_only ed text)
  | some i ↦ deref ed.current >>= λ c. insert_behind ed c text
]

-- The new line before line `c`; the index stays.
unfoldable pub insert_ahead : Editor → ℕ → List ℕ → Outcome Editor
unfolding link_next
insert_ahead ed c text = node_at ed.nodes c >>= λ curr.
    let n = ed.fresh in
    let made = put_node ed.nodes n (record { text = text; next = some c; prev = curr.prev }) in
    link_next made curr.prev (some n) >>= λ nodes. set_prev nodes c (some n) >>= λ nodes'.
    ok (record ed {
      nodes = nodes';
      fresh = n + 1;
      first = unless_linked curr.prev (some n) ed.first;
      current = some n;
      total_lines = ed.total_lines + 1;
      modified = true;
    })

unfoldable pub insert_before : Editor → List ℕ → Outcome Editor
insert_before ed text = elim ed.first [
  | none ↦ ok (insert_only ed text)
  | some i ↦ deref ed.current >>= λ c. insert_ahead ed c text
]

unfoldable pub replace_line : Editor → List ℕ → Outcome Editor
replace_line ed text = elim ed.current [
  | none ↦ ok ed
  | some c ↦ node_at ed.nodes c >>= λ l.
      ok (record ed { nodes = put_node ed.nodes c (record l { text = text }); modified = true })
]

-- The line `c` is taken out; the index stays.
unfoldable pub remove : Editor → ℕ → Outcome Editor
unfolding link_next link_prev
remove ed c = node_at ed.nodes c >>= λ l. link_next ed.nodes l.prev l.next >>= λ nodes.
    link_prev nodes l.next l.prev >>= λ nodes'. ok (record ed {
      nodes = free_node nodes' c;
      first = unless_linked l.prev l.next ed.first;
      last = unless_linked l.next l.prev ed.last;
      current = or_else l.next l.prev;
      total_lines = ed.total_lines - 1;
      modified = true;
    })

unfoldable pub delete_line : Editor → Outcome Editor
delete_line ed = elim ed.current [ none ↦ ok ed | some c ↦ remove ed c ]

-- `while (current_line_idx < target)` and `while (current_line_idx > target)`: the difference bounds
-- the rounds.
unfoldable pub go_forward : ℕ → Editor → Outcome Editor
go_forward zero ed = ok ed
go_forward (suc rounds) ed = deref ed.current >>= λ c. node_at ed.nodes c >>= λ l.
    go_forward rounds (record ed { current = l.next; current_line_idx = ed.current_line_idx + 1 })

unfoldable pub go_back : ℕ → Editor → Outcome Editor
go_back zero ed = ok ed
go_back (suc rounds) ed = deref ed.current >>= λ c. node_at ed.nodes c >>= λ l.
    go_back rounds (record ed { current = l.prev; current_line_idx = ed.current_line_idx - 1 })

-- Both loops, and the last message, which shows the current line's text.
unfoldable pub walk : ℕ → Editor → Outcome Editor
walk target start = go_forward (target - start.current_line_idx) start >>= λ ed.
    go_back (ed.current_line_idx - target) ed >>= λ ed'.
    deref ed'.current >>= λ c. node_at ed'.nodes c >>= λ l. ok ed'

-- A target in the first half starts at the first line.
unfoldable pub goto_line : Editor → ℕ → Outcome Editor
goto_line ed target =
    if ltb target 1 || ltb ed.total_lines target
    then ok ed
    else walk target (
        if ltb target (ed.current_line_idx / 2)
        then record ed { current = ed.first; current_line_idx = 1 }
        else ed)

-- The lines that print_lines shows: at most `count`, from `p` on, with their numbers.
unfoldable pub print_from : ℕ → Nodes → Option ℕ → ℕ → Outcome (List (ℕ × List ℕ))
print_from zero nodes p num = ok []
print_from (suc count) nodes none num = ok []
print_from (suc count) nodes (some i) num = node_at nodes i >>= λ l.
    print_from count nodes l.next (num + 1) >>= λ rest. ok ((num, l.text) ∷ rest)

unfoldable pub print_lines : Editor → ℕ → Outcome (List (ℕ × List ℕ))
unfolding print_from
print_lines ed count = print_from count ed.nodes ed.current ed.current_line_idx
