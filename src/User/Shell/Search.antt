-- ===== src/User/Shell/Search.antt =====
-- The search of user/src/sh.c for a program, against a list of its candidates.
use foxtail.Common.{
  ℕ, zero, suc, ◌≤◌, ◌<◌, ◌≡◌, inl, inr, refl, sym, ap, ◌∙◌, Bool, true, false, List, [], ◌∷◌, ◌++◌,
  length, arith, Outcome, ok, ◌==◌, ◌||◌, if◌then◌else◌, Bool-cases,
}
use foxtail.Kernel.{minus_one}
use foxtail.User.Printf.{is_negative}
use foxtail.User.Shell.{Calls, until, from, behind, try_dir, try_dirs, is_direct, spawn_with_path}
use foxtail.User.Shell.Words.{put_field, fields, fields-until}

-- The first of the candidates that can be started; the later ones are not tried.
abbrev pub first_pid :
    {S : Type 0} → Calls S → List ℕ → List (List ℕ) → List (ℕ × ℕ) → List (List ℕ) → S → ℕ × S
first_pid sys filename argv commands [] s = (minus_one, s)
first_pid sys filename argv commands (dir ∷ dirs) s =
    let (pid, s') = sys.spawn_proc (dir ++ b'/' ∷ filename) argv commands s in
    let failed = first_pid sys filename argv commands dirs s' in
    if is_negative pid then failed else (pid, s')

abbrev pub is_empty : List ℕ → Bool
is_empty [] = true
is_empty (c ∷ s) = false

length-from : (sep : ℕ) (s : List ℕ) → length (from sep s) ≤ length s
unfolding from
length-from sep [] = omega arith
length-from sep (c ∷ s) = elim (Bool-cases (c == sep)) [
  | inl e ↦ rw e (omega arith)
  | inr e ↦ rw e (omega (arith, length-from sep s))
]

module _ {S : Type 0} (sys : Calls S) (filename : List ℕ) (argv : List (List ℕ))
    (commands : List (ℕ × ℕ)) where
  try_dir_lem :
      (dir : List ℕ) (dirs : List (List ℕ)) (next : S → Outcome (ℕ × S)) (s : S)
      → ((s' : S) → next s' ≡ ok (first_pid sys filename argv commands dirs s'))
      → try_dir sys dir filename argv commands next s
        ≡ ok (first_pid sys filename argv commands (put_field dir dirs) s)
  unfolding try_dir
  try_dir_lem [] dirs next s h = h s
  try_dir_lem (d ∷ dir) dirs next s h =
      let r = sys.spawn_proc ((d ∷ dir) ++ b'/' ∷ filename) argv commands s in
      elim (Bool-cases (is_negative r.0)) [ inl e ↦ rw e (h r.1) | inr e ↦ rw e refl ]

  try_dirs_lem :
      (fuel : ℕ) (path : List ℕ) (s : S)
      → length path < fuel
      → try_dirs sys fuel path filename argv commands s
        ≡ ok (first_pid sys filename argv commands (fields b':' path) s)
  unfolding try_dirs
  try_dirs_lem zero path s enough = absurd (omega arith)
  try_dirs_lem (suc fuel) path s enough =
      try_dir_lem (until b':' path) (fields b':' (behind (from b':' path))) _ s (
        on (from b':' path) (omega (arith, length-from b':' path, enough))
          (λ more s' fits. try_dirs_lem fuel more s' fits))
      ∙ ap (λ ds. ok (first_pid sys filename argv commands ds s)) (sym (fields-until b':' [] path))
    where
      on :
          (rest : List ℕ)
          → length rest ≤ fuel
          → ((more : List ℕ) (s' : S)
              → length more < fuel
              → try_dirs sys fuel more filename argv commands s'
                ≡ ok (first_pid sys filename argv commands (fields b':' more) s'))
          → (s' : S)
          → (elim rest [
            | [] ↦ ok (minus_one, s')
            | c ∷ more ↦ try_dirs sys fuel more filename argv commands s'
          ])
            ≡ ok (first_pid sys filename argv commands (fields b':' (behind rest)) s')
      on [] fits ih s' = refl
      on (c ∷ more) fits ih s' = ih more s' (omega (arith, fits))

  -- spawn_with_path returns, if its fuel exceeds the length of the path. A name that starts with `~`
  -- or `.`, and every name where the path is empty, is started as it is; another is looked for in
  -- the path's directories, in their order and without the empty ones: the first that can be
  -- started is the result, no later one is tried, and the result is -1 if there is none.
  pub spawn_with_path_lem :
      (fuel : ℕ) (path : List ℕ) (s : S)
      → length path < fuel
      → spawn_with_path sys fuel path filename argv commands s
        ≡ ok (
            if is_direct filename || is_empty path
            then sys.spawn_proc filename argv commands s
            else first_pid sys filename argv commands (fields b':' path) s)
  unfolding spawn_with_path
  spawn_with_path_lem fuel path s enough = elim (Bool-cases (is_direct filename)) [
    | inl e ↦ rw e refl
    | inr e ↦ rw e (by_case path enough)
  ]
    where
      by_case :
          (path : List ℕ)
          → length path < fuel
          → (elim path [
            | [] ↦ ok (sys.spawn_proc filename argv commands s)
            | c ∷ rest ↦ try_dirs sys fuel (c ∷ rest) filename argv commands s
          ])
            ≡ ok (
                if is_empty path
                then sys.spawn_proc filename argv commands s
                else first_pid sys filename argv commands (fields b':' path) s)
      by_case [] fits = refl
      by_case (c ∷ rest) fits = try_dirs_lem fuel (c ∷ rest) s fits
