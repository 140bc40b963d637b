-- ===== src/User/Shell/Input.antt =====
-- The loop of user/src/sh.c that reads its input and edits a line.
pub mod Reads
use foxtail.Common.{
  ℕ, zero, suc, Bool, true, false, Option, none, some, List, [], ◌∷◌, ◌++◌, Outcome, ok, ◌>>=◌,
  ◌==◌, ◌||◌, if◌then◌else◌,
}
use foxtail.Kernel.{TtyMode, mode_raw}
use foxtail.User.Printf.{c_string}
use foxtail.User.Shell.{Calls, Message, prompt_ok, prompt_failed, echo}
use foxtail.User.Shell.Commands.{process_cmd}

-- What the bytes of one read lead to: a line that goes on, or the result of a command.
pub data Fed (S : Type 0) : Type 0 where
  going_on : List ℕ → S → Fed S
  ran : Option ℕ → S → Fed S

-- The line without its last byte.
unfoldable pub init : List ℕ → List ℕ
init [] = []
init (c ∷ []) = []
init (c ∷ d ∷ s) = c ∷ init (d ∷ s)

-- Text goes to a terminal only.
abbrev pub show : {S : Type 0} → Calls S → Bool → Message → S → S
show sys is_tty message s = if is_tty then sys.puts message s else s

-- A backspace or a delete takes the last byte.
unfoldable pub rub_out : {S : Type 0} → Calls S → Bool → List ℕ → S → List ℕ × S
unfolding init
rub_out sys is_tty [] s = ([], s)
rub_out sys is_tty (c ∷ line) s = (init (c ∷ line), show sys is_tty (echo 8) s)

-- The loop over the bytes of one read. Behind a newline it ends, so that the bytes behind are lost.
unfoldable pub feed : {S : Type 0} → Calls S → Bool → List ℕ → List ℕ → S → Outcome (Fed S)
unfolding rub_out process_cmd
feed sys is_tty [] line s = ok (going_on line s)
feed sys is_tty (c ∷ bytes) line s =
    let rubbed = rub_out sys is_tty line s in
    let fewer = feed sys is_tty bytes rubbed.0 rubbed.1 in
    let more = feed sys is_tty bytes (line ++ c ∷ []) (show sys is_tty (echo c) s) in
    if c == b'\n'
    then (process_cmd sys (c_string line) (show sys is_tty (echo c) s) >>= λ (code, s').
        ok (ran code s'))
    else if c == 8 || c == 127
    then fewer
    else more

abbrev pub prompt : {S : Type 0} → Calls S → Bool → ℕ → S → S
prompt sys is_tty exit_code s =
    show sys is_tty (if exit_code == 0 then prompt_ok else prompt_failed) s

-- The whole loop on a list of reads; an empty one, and the end of the list, end the shell.
unfoldable pub shell_loop : {S : Type 0} → Calls S → Bool → List (List ℕ) → List ℕ → S → Outcome S
unfolding feed
shell_loop sys is_tty [] line s = ok s
shell_loop sys is_tty ([] ∷ reads) line s = ok s
shell_loop sys is_tty ((c ∷ bytes) ∷ reads) line s =
    let rest = shell_loop sys is_tty reads in
    feed sys is_tty (c ∷ bytes) line s >>= λ fed. elim fed [
      | going_on line' s' ↦ rest line' s'
      | ran none s' ↦ ok s'
      | ran (some exit_code) s' ↦ rest [] (prompt sys is_tty exit_code s')
    ]

-- _start, after the mode of the terminal is saved.
unfoldable pub start : {S : Type 0} → Calls S → Bool → List (List ℕ) → S → Outcome S
unfolding shell_loop
start sys is_tty reads s =
    shell_loop sys is_tty reads [] (prompt sys is_tty 0 (sys.set_tty_mode mode_raw s))
