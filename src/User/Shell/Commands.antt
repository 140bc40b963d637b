-- ===== src/User/Shell/Commands.antt =====
-- process_cmd of user/src/sh.c. `none` in place of a result ends the shell.
pub mod Pipes
use foxtail.Common.{
  ℕ, zero, suc, ◌+◌, Bool, true, false, Option, none, some, List, [], ◌∷◌, ◌++◌, Outcome, ok, fault,
  ◌>>=◌, leb, not, ◌==◌, ◌||◌, if◌then◌else◌, drop,
}
use foxtail.KString.{list_eq}
use foxtail.Kernel.{minus_one, TtyMode, mode_raw, mode_cooked}
use foxtail.User.Printf.{is_negative}
use foxtail.User.Shell.{
  Calls, Message, changed_directories, cd_failed, pipe_failed, left_failed, right_failed,
  spawn_failed, is_prefix, contains_pipe, until, from, behind, skip_spaces, trim, parse_args,
  spawn_with_path,
}

-- env_path: "~/bin"
abbrev pub env_path : List ℕ
env_path = b'~' ∷ b'/' ∷ b'b' ∷ b'i' ∷ b'n' ∷ []

abbrev pub cd_text : List ℕ
cd_text = b'c' ∷ b'd' ∷ 32 ∷ []

abbrev pub exit_text : List ℕ
exit_text = b'e' ∷ b'x' ∷ b'i' ∷ b't' ∷ []

unfoldable pub change_dir : {S : Type 0} → Calls S → List ℕ → S → Option ℕ × S
change_dir sys buf s =
    let dir = skip_spaces (drop 3 buf) in
    let (res, s') = sys.cd dir s in
    if res == 0
    then (some 0, sys.puts (changed_directories dir) s')
    else (some minus_one, sys.puts cd_failed s')

-- spawn_with_path on the arguments; without any, the name is a null pointer, which is_prefix reads.
unfoldable pub spawn_args :
    {S : Type 0} → Calls S → List (List ℕ) → List (ℕ × ℕ) → S → Outcome (ℕ × S)
spawn_args sys [] commands s = fault
spawn_args sys (name ∷ args) commands s =
    spawn_with_path sys 6 env_path name (name ∷ args) commands s

-- The shell waits for its children in cooked mode.
unfoldable pub wait_both : {S : Type 0} → Calls S → ℕ → ℕ → S → ℕ × S
wait_both sys left_pid right_pid s =
    let s1 = sys.set_tty_mode mode_cooked s in
    let (_, s2) = sys.wait left_pid s1 in
    let (res, s3) = sys.wait right_pid s2 in (res, sys.set_tty_mode mode_raw s3)

-- Two commands with a pipe from the left one's descriptor 0 to the right one's descriptor 1.
unfoldable pub run_pipe : {S : Type 0} → Calls S → List ℕ → S → Outcome (Option ℕ × S)
unfolding spawn_args wait_both
run_pipe {S = S} sys buf s =
    let left = parse_args (trim (until b'|' buf)) in
    let right = parse_args (trim (behind (from b'|' buf))) in
    let (res, read_fd, write_fd, s1) = sys.pipe s in
    let failed : Message → S → Outcome (Option ℕ × S) =
      λ message s'. ok (some minus_one, sys.puts message s') in
    if is_negative res
    then failed pipe_failed s1
    else spawn_args sys left ((write_fd, 0) ∷ []) s1 >>= λ (left_pid, s2).
        if is_negative left_pid
        then failed left_failed s2
        else spawn_args sys right ((read_fd, 1) ∷ []) s2 >>= λ (right_pid, s3).
            if is_negative right_pid
            then failed right_failed s3
            else (let (code, s4) =
                  wait_both sys left_pid right_pid (sys.close write_fd (sys.close read_fd s3)) in
                ok (some code, s4))

unfoldable pub run_one : {S : Type 0} → Calls S → List ℕ → S → Outcome (Option ℕ × S)
unfolding spawn_args
run_one sys buf s = elim (parse_args buf) [
  | [] ↦ ok (some minus_one, s)
  | name ∷ args ↦ spawn_args sys (name ∷ args) [] s >>= λ (pid, s1).
      if is_negative pid
      then ok (some minus_one, sys.puts (spawn_failed name) s1)
      else (let (code, s2) = sys.wait pid (sys.set_tty_mode mode_cooked s1) in
          ok (some code, sys.set_tty_mode mode_raw s2))
]

unfoldable pub process_cmd : {S : Type 0} → Calls S → List ℕ → S → Outcome (Option ℕ × S)
unfolding change_dir run_pipe run_one
process_cmd sys buf s =
    if is_prefix buf cd_text
    then ok (change_dir sys buf s)
    else if list_eq buf exit_text
    then ok (none, s)
    else if contains_pipe buf
    then run_pipe sys buf s
    else run_one sys buf s
