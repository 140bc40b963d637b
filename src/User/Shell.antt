-- ===== src/User/Shell.antt =====
-- The shell, user/src/sh.c, with the functions of user/include/string.h that it calls, on the bytes
-- of a string before its NUL. Memory is taken not to run out.
pub mod Words
pub mod Search
pub mod Commands
pub mod Input
use foxtail.Common.{
  ℕ, zero, suc, ◌+◌, Bool, true, false, Option, none, some, List, [], ◌∷◌, ◌++◌, Outcome, ok, fault,
  spin, ◌>>=◌, leb, not, ◌==◌, ◌||◌, if◌then◌else◌,
}
use foxtail.KString.{list_eq}
use foxtail.Kernel.{minus_one, TtyMode, mode_raw, mode_cooked}
use foxtail.User.Printf.{c_string, is_negative}

-- What the shell prints: its answers, its prompts, and what it echoes.
pub data Message : Type 0 where
  changed_directories : List ℕ → Message
  cd_failed : Message
  pipe_failed : Message
  left_failed : Message
  right_failed : Message
  spawn_failed : List ℕ → Message
  prompt_ok : Message
  prompt_failed : Message
  echo : ℕ → Message

-- The system calls of the shell, on a state `S` of the rest of the system. A negative result stands
-- for an error. A remapping is a pair of the current and the new descriptor.
pub record Calls (S : Type 0) : Type 0 where
  pub spawn_proc : List ℕ → List (List ℕ) → List (ℕ × ℕ) → S → ℕ × S
  pub cd : List ℕ → S → ℕ × S
  pub pipe : S → ℕ × ℕ × ℕ × S
  pub close : ℕ → S → S
  pub wait : ℕ → S → ℕ × S
  pub set_tty_mode : TtyMode → S → S
  pub puts : Message → S → S

unfoldable pub is_prefix : List ℕ → List ℕ → Bool
is_prefix str [] = true
is_prefix [] (p ∷ prefix) = false
is_prefix (c ∷ str) (p ∷ prefix) = if c == p then is_prefix str prefix else false

unfoldable pub contains_pipe : List ℕ → Bool
contains_pipe [] = false
contains_pipe (c ∷ s) = if c == b'|' then true else contains_pipe s

-- The bytes that `while (*p && *p != sep) p++` goes over, and those from where it stops.
unfoldable pub until : ℕ → List ℕ → List ℕ
until sep [] = []
until sep (c ∷ s) = if c == sep then [] else c ∷ until sep s

unfoldable pub from : ℕ → List ℕ → List ℕ
from sep [] = []
from sep (c ∷ s) = if c == sep then c ∷ s else from sep s

-- `p + 1`
abbrev pub behind : List ℕ → List ℕ
behind [] = []
behind (c ∷ s) = s

unfoldable pub skip_spaces : List ℕ → List ℕ
skip_spaces [] = []
skip_spaces (c ∷ s) = if c == b' ' then skip_spaces s else c ∷ s

-- The string that trim leaves in its place: the spaces at the end are cut, unless there is nothing
-- else.
abbrev pub keep : ℕ → List ℕ → List ℕ
keep c [] = if c == b' ' then [] else c ∷ []
keep c (d ∷ t) = c ∷ d ∷ t

unfoldable pub trim_end : List ℕ → List ℕ
trim_end [] = []
trim_end (c ∷ s) = keep c (trim_end s)

unfoldable pub trim : List ℕ → List ℕ
unfolding trim_end
trim [] = []
trim (c ∷ s) = if c == b' ' then c ∷ trim s else trim_end (c ∷ s)

-- MAX_ARGS
abbrev pub max_args : ℕ
max_args = 16

-- The loop of parse_args, with `room` for so many arguments; a word ends at a NUL that is written
-- over the space behind it.
unfoldable pub parse_loop : ℕ → List ℕ → List (List ℕ)
parse_loop zero buf = []
parse_loop (suc room) [] = []
parse_loop (suc room) (c ∷ buf) =
    until b' ' (c ∷ buf) ∷ parse_loop room (skip_spaces (behind (from b' ' (c ∷ buf))))

unfoldable pub parse_args : List ℕ → List (List ℕ)
parse_args buf = parse_loop max_args (skip_spaces buf)

-- One directory of a path, unless it is empty; `next` goes on.
unfoldable pub try_dir :
    {S : Type 0}
    → Calls S
    → List ℕ
    → List ℕ
    → List (List ℕ)
    → List (ℕ × ℕ)
    → (S → Outcome (ℕ × S))
    → S
    → Outcome (ℕ × S)
try_dir sys [] filename argv commands next s = next s
try_dir sys (d ∷ dir) filename argv commands next s =
    let (pid, s') = sys.spawn_proc ((d ∷ dir) ++ b'/' ∷ filename) argv commands s in
    let failed = next s' in if is_negative pid then failed else ok (pid, s')

-- The directories, one behind another, from what is left of the path; fuel bounds the rounds.
unfoldable pub try_dirs :
    {S : Type 0}
    → Calls S
    → ℕ
    → List ℕ
    → List ℕ
    → List (List ℕ)
    → List (ℕ × ℕ)
    → S
    → Outcome (ℕ × S)
unfolding try_dir
try_dirs sys zero path filename argv commands s = spin
try_dirs sys (suc fuel) path filename argv commands s =
    try_dir sys (until b':' path) filename argv commands
      (λ s'. elim (from b':' path) [
        | [] ↦ ok (minus_one, s')
        | c ∷ rest ↦ try_dirs sys fuel rest filename argv commands s'
      ])
      s

-- A name that starts with `~` or `.` is not searched for.
abbrev pub is_direct : List ℕ → Bool
is_direct filename = is_prefix filename (b'~' ∷ []) || is_prefix filename (b'.' ∷ [])

unfoldable pub spawn_with_path :
    {S : Type 0}
    → Calls S
    → ℕ
    → List ℕ
    → List ℕ
    → List (List ℕ)
    → List (ℕ × ℕ)
    → S
    → Outcome (ℕ × S)
spawn_with_path sys fuel path filename argv commands s =
    let direct = ok (sys.spawn_proc filename argv commands s) in
    if is_direct filename then direct else elim path [
      | [] ↦ direct
      | c ∷ rest ↦ try_dirs sys fuel (c ∷ rest) filename argv commands s
    ]
