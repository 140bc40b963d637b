-- ===== src/User/Shell/Commands/Pipes.antt =====
-- Commands with a pipe in user/src/sh.c.
use foxtail.Common.{ℕ, ◌≡◌, refl, ap, ◌∙◌, true, false, List, [], take, fault}
use foxtail.KString.{list_eq}
use foxtail.User.Printf.{is_negative}
use foxtail.User.Shell.{Calls, is_prefix, contains_pipe, until, trim, parse_args, max_args}
use foxtail.User.Shell.Words.{fields, parse_args_lem, parse_args-trim}
use foxtail.User.Shell.Commands.{cd_text, exit_text, spawn_args, run_pipe, process_cmd}

-- A side of spaces only has no arguments.
blank : (s : List ℕ) → fields b' ' s ≡ [] → parse_args (trim s) ≡ []
blank s h = parse_args-trim s ∙ parse_args_lem s ∙ ap (take max_args) h

module _ {S : Type 0} (sys : Calls S) (buf : List ℕ) (s : S) where
  run_pipe-blank :
      fields b' ' (until b'|' buf) ≡ []
      → is_negative (sys.pipe s).0 ≡ false
      → run_pipe sys buf s ≡ fault
  unfolding run_pipe spawn_args
  run_pipe-blank h made = rw (blank (until b'|' buf) h, made) refl

  -- A command that begins with a pipe sign, with spaces at most before it, makes the shell read
  -- through a null pointer, once the pipe is made. It is no `cd` and no `exit`.
  pub process_cmd-blank :
      is_prefix buf cd_text ≡ false
      → list_eq buf exit_text ≡ false
      → contains_pipe buf ≡ true
      → fields b' ' (until b'|' buf) ≡ []
      → is_negative (sys.pipe s).0 ≡ false
      → process_cmd sys buf s ≡ fault
  unfolding process_cmd
  process_cmd-blank cd leaves piped h made = rw (cd, leaves, piped) (run_pipe-blank h made)
