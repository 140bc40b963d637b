-- ===== src/Tests/Shell.antt =====
-- user/src/sh.c with system calls that keep the names of the programs that it tries to start.
use foxtail.Common.{
  ℕ, ◌≡◌, refl, true, List, [], ◌∷◌, ◌++◌, take, arith, ok, fault, ◌||◌, if◌then◌else◌,
}
use foxtail.KString.{list_eq}
use foxtail.Kernel.{minus_one}
use foxtail.User.Printf.{c_string}
use foxtail.User.Shell.{
  Calls, is_prefix, contains_pipe, until, from, skip_spaces, parse_loop, parse_args, try_dir,
  try_dirs, is_direct, spawn_with_path,
}
use foxtail.User.Shell.Words.{fields, parse_args_lem}
use foxtail.User.Shell.Search.{is_empty, first_pid, spawn_with_path_lem}
use foxtail.User.Shell.Commands.{spawn_args, run_one, process_cmd}
use foxtail.User.Shell.Commands.Pipes.{process_cmd-blank}
use foxtail.User.Shell.Input.{init, rub_out, feed, shell_loop, start}
use foxtail.User.Shell.Input.Reads.{shell_loop-append, shell_loop-newline}

-- Programs stand in `b` only; their process is number 7.
abbrev tried : Calls (List (List ℕ))
tried = record {
  spawn_proc = λ name argv commands s. (
    if is_prefix name (b'b' ∷ b'/' ∷ []) || is_prefix name (b'~' ∷ []) then 7 else minus_one,
    s ++ name ∷ [],
  );
  cd = λ dir s. (0, s);
  pipe = λ s. (0, 3, 4, s);
  close = λ fd s. s;
  wait = λ pid s. (0, s);
  set_tty_mode = λ mode s. s;
  puts = λ message s. s;
}

-- " ab  c"
abbrev two_words : List ℕ
two_words = 32 ∷ b'a' ∷ b'b' ∷ 32 ∷ 32 ∷ b'c' ∷ []

two_arguments : parse_args two_words ≡ (b'a' ∷ b'b' ∷ []) ∷ (b'c' ∷ []) ∷ []
unfolding parse_args parse_loop skip_spaces until from
two_arguments = refl

parse_args_lem_example : parse_args two_words ≡ take 16 (fields 32 two_words)
parse_args_lem_example = parse_args_lem two_words

-- "a::b:c"
abbrev path : List ℕ
path = b'a' ∷ b':' ∷ b':' ∷ b'b' ∷ b':' ∷ b'c' ∷ []

searched :
    spawn_with_path tried 7 path (b'l' ∷ []) [] [] []
    ≡ ok (7, (b'a' ∷ b'/' ∷ b'l' ∷ []) ∷ (b'b' ∷ b'/' ∷ b'l' ∷ []) ∷ [])
unfolding spawn_with_path try_dirs try_dir until from is_prefix
searched = refl

spawn_with_path_lem_example :
    spawn_with_path tried 7 path (b'l' ∷ []) [] [] []
    ≡ ok (
        if is_direct (b'l' ∷ []) || is_empty path
        then tried.spawn_proc (b'l' ∷ []) [] [] []
        else first_pid tried (b'l' ∷ []) [] [] (fields b':' path) [])
spawn_with_path_lem_example = spawn_with_path_lem tried (b'l' ∷ []) [] [] 7 path [] (omega arith)

shell_loop-append_example :
    shell_loop tried true ((b'l' ∷ []) ∷ (b's' ∷ b'\n' ∷ []) ∷ []) [] []
    ≡ shell_loop tried true ((b'l' ∷ b's' ∷ b'\n' ∷ []) ∷ []) [] []
shell_loop-append_example =
    shell_loop-append tried true b'l' b's' [] (b'\n' ∷ []) [] [] []
      (λ e. absurd (omega (arith, e)), tt)

shell_loop-newline_example :
    shell_loop tried true ((b'l' ∷ b'\n' ∷ b'l' ∷ b'\n' ∷ []) ∷ []) [] []
    ≡ shell_loop tried true ((b'l' ∷ b'\n' ∷ []) ∷ []) [] []
shell_loop-newline_example =
    shell_loop-newline tried true b'l' [] (b'l' ∷ b'\n' ∷ []) [] [] []
      (λ e. absurd (omega (arith, e)), tt)

-- " |l"
abbrev half_pipe : List ℕ
half_pipe = 32 ∷ b'|' ∷ b'l' ∷ []

blank_side : process_cmd tried half_pipe [] ≡ fault
unfolding is_prefix list_eq contains_pipe until
blank_side = process_cmd-blank tried half_pipe [] refl refl refl refl refl

-- A typing error is rubbed out, and the program is started.
typed_command :
    start tried true ((b'l' ∷ b'x' ∷ 8 ∷ []) ∷ (b's' ∷ b'\n' ∷ []) ∷ []) []
    ≡ ok ((b'~' ∷ b'/' ∷ b'b' ∷ b'i' ∷ b'n' ∷ b'/' ∷ b'l' ∷ b's' ∷ []) ∷ [])
unfolding start shell_loop feed rub_out init process_cmd run_one spawn_args spawn_with_path try_dirs
    try_dir parse_args parse_loop skip_spaces until from is_prefix list_eq contains_pipe c_string
typed_command = refl
