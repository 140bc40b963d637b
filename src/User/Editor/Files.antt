-- ===== src/User/Editor/Files.antt =====
-- load_file and save_file of user/src/ed.c: a file is the list of its bytes.
pub mod Append
pub mod Loaded
pub mod RoundTrip
use foxtail.Common.{
  ℕ, zero, suc, ◌+◌, ◌-◌, Option, none, some, List, [], ◌∷◌, ◌++◌, length, false, Outcome, ok, spin,
  ◌>>=◌, leb, ◌==◌, ◌||◌, if◌then◌else◌,
}
use foxtail.User.Printf.{c_string}
use foxtail.User.Editor.{Line, Nodes, Editor, put_node, node_at, deref, set_next}

-- MAX_LINE_LEN
abbrev pub max_line_len : ℕ
max_line_len = 256

-- A line behind the last one.
unfoldable pub append_line : Editor → List ℕ → Outcome Editor
append_line ed text =
    let n = ed.fresh in
    let line =
      λ (p : Option ℕ). put_node ed.nodes n (record { text = text; next = none; prev = p }) in
    elim ed.first [
      | none ↦ ok (record ed {
        nodes = line none;
        fresh = n + 1;
        first = some n;
        current = some n;
        last = some n;
        total_lines = ed.total_lines + 1;
      })
      | some i ↦ deref ed.last >>= λ e. set_next (line (some e)) e (some n) >>= λ nodes.
          ok (record ed {
            nodes = nodes;
            fresh = n + 1;
            last = some n;
            total_lines = ed.total_lines + 1;
          })
    ]

-- The loop over the bytes, with the line so far in `buffer`. The byte that ends a line for its length
-- is lost, and a line is cut at a NUL by strdup.
unfoldable pub load_loop : List ℕ → List ℕ → Editor → Outcome Editor
unfolding c_string append_line
load_loop [] [] ed = ok ed
load_loop [] (b ∷ buffer) ed = append_line ed (c_string (b ∷ buffer))
load_loop (c ∷ bytes) buffer ed =
    let fresh_line = λ (ed' : Editor). load_loop bytes [] ed' in
    let go_on = load_loop bytes (buffer ++ c ∷ []) ed in
    if c == 10 || leb (max_line_len - 1) (length buffer)
    then append_line ed (c_string buffer) >>= fresh_line
    else go_on

unfoldable pub load_file : Editor → List ℕ → Outcome Editor
load_file ed bytes = load_loop bytes [] ed >>= λ ed'. ok (record ed' { current_line_idx = 1 })

-- What the loop of save_file writes from line `p` on.
unfoldable pub save_from : ℕ → Nodes → Option ℕ → Outcome (List ℕ)
save_from zero nodes p = spin
save_from (suc fuel) nodes none = ok []
save_from (suc fuel) nodes (some i) =
    node_at nodes i >>= λ l. save_from fuel nodes l.next >>= λ rest. ok (l.text ++ 10 ∷ rest)

unfoldable pub save_file : ℕ → Editor → Outcome (List ℕ × Editor)
unfolding save_from
save_file fuel ed =
    save_from fuel ed.nodes ed.first >>= λ bytes. ok (bytes, record ed { modified = false })
