-- ===== src/Process/Exec/Arguments.antt =====
-- The arguments in exec_helper of kernel/src/exec.c: one page, of the pointers and the strings.
use foxtail.Common.{
  ℕ, zero, suc, ◌+◌, ◌*◌, ◌%◌, List, Mem, Outcome, ok, fault, ltb, length, if◌then◌else◌,
}
use foxtail.Kernel.{user_string, read_u32, write_u32, write_string}

-- Where the arguments' page and the break start.
abbrev pub args_base : ℕ
args_base = 2147483648

-- `argv[i]`
abbrev pub arg_at : Mem → ℕ → ℕ → List ℕ
arg_at user argv i = user_string user (read_u32 user ((argv + 4 * i) % 4294967296))

-- `total_argv_len`, for `rounds` arguments from `i` on.
unfoldable pub argv_total : ℕ → Mem → ℕ → ℕ → ℕ
argv_total zero user argv i = 0
argv_total (suc rounds) user argv i =
    (length (arg_at user argv i) + 5 + argv_total rounds user argv (i + 1)) % 4294967296

-- The loop that fills the page, from argument `i` on, with the next string at `off`: the number of
-- arguments that have found room. `argc * 4` may have wrapped around, so a pointer may miss the page.
unfoldable pub fill_args : ℕ → Mem → ℕ → ℕ → ℕ → ℕ → Mem → Outcome (ℕ × Mem)
fill_args zero user argv i off argc buf = ok (argc, buf)
fill_args (suc rounds) user argv i off argc buf =
    let s = arg_at user argv i in
    let rest =
      fill_args rounds user argv (i + 1) (off + (length s + 1)) argc
        (write_string (write_u32 buf (4 * i) (args_base + off)) off s) in
    if ltb 4096 (off + (length s + 1))
    then ok (i, buf)
    else if ltb 4096 (4 * i + 4)
    then fault
    else rest
