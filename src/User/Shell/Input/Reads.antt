-- ===== src/User/Shell/Input/Reads.antt =====
-- How user/src/sh.c depends on where its reads cut the input.
use foxtail.Common.{
  ℕ, ◌≡◌, ◌≢◌, inl, inr, refl, sym, ap, ◌∙◌, Bool, false, List, [], ◌∷◌, ◌++◌, ok, append-nil,
  arith, ◌==◌, ◌||◌, if◌then◌else◌, Bool-cases,
}
use foxtail.User.Shell.{Calls, echo}
use foxtail.User.Shell.Input.{going_on, rub_out, feed, show, shell_loop}

-- No byte is a newline.
abbrev pub InLine : List ℕ → Type 0
InLine [] = Unit {0}
InLine (c ∷ s) = (c ≢ b'\n') × InLine s

module _ {S : Type 0} (sys : Calls S) (is_tty : Bool) where
  -- What is typed leads to a line and a state.
  abbrev pub typed : List ℕ → List ℕ → S → List ℕ × S
  typed [] line s = (line, s)
  typed (c ∷ bytes) line s =
      let rubbed = rub_out sys is_tty line s in
      let fewer = typed bytes rubbed.0 rubbed.1 in
      let more = typed bytes (line ++ c ∷ []) (show sys is_tty (echo c) s) in
      if c == 8 || c == 127 then fewer else more

  feed-typed :
      (a b line : List ℕ) (s : S)
      → InLine a
      → feed sys is_tty (a ++ b) line s ≡ feed sys is_tty b (typed a line s).0 (typed a line s).1
  unfolding feed
  feed-typed [] b line s h = refl
  feed-typed (c ∷ a) b line s (ne, h) =
      let plain : (c == b'\n') ≡ false = ground arith in
      let rubbed = rub_out sys is_tty line s in
      elim (Bool-cases (c == 8 || c == 127)) [
        | inl e ↦ rw (plain, e) (feed-typed a b rubbed.0 rubbed.1 h)
        | inr e ↦ rw (plain, e) (feed-typed a b (line ++ c ∷ []) (show sys is_tty (echo c) s) h)
      ]

  -- The bytes before a newline leave a line and a state, from which the rest goes on.
  feed-append :
      (a b line : List ℕ) (s : S)
      → InLine a
      → (line' : List ℕ) × (s' : S) × (feed sys is_tty a line s ≡ ok (going_on line' s'))
        × (feed sys is_tty (a ++ b) line s ≡ feed sys is_tty b line' s')
  unfolding feed
  feed-append a b line s h = (
    (typed a line s).0,
    (typed a line s).1,
    ap (λ x. feed sys is_tty x line s) (sym (append-nil a)) ∙ feed-typed a [] line s h,
    feed-typed a b line s h,
  )

  feed-newline :
      (a b line : List ℕ) (s : S)
      → InLine a
      → feed sys is_tty (a ++ b'\n' ∷ b) line s ≡ feed sys is_tty (a ++ b'\n' ∷ []) line s
  unfolding feed
  feed-newline a b line s h =
      feed-typed a (b'\n' ∷ b) line s h ∙ sym (feed-typed a (b'\n' ∷ []) line s h)

  -- Where the input of a line is cut into reads makes no difference: bytes without a newline that
  -- come in one read lead to what they lead to in a read with the bytes of the next one. Neither
  -- read is empty.
  pub shell_loop-append :
      (c d : ℕ) (a b : List ℕ) (reads : List (List ℕ)) (line : List ℕ) (s : S)
      → InLine (c ∷ a)
      → shell_loop sys is_tty ((c ∷ a) ∷ (d ∷ b) ∷ reads) line s
        ≡ shell_loop sys is_tty ((c ∷ a ++ d ∷ b) ∷ reads) line s
  unfolding shell_loop
  shell_loop-append c d a b reads line s h =
      let (line', s', first, both) = feed-append (c ∷ a) (d ∷ b) line s h in rw (first, both) refl

  -- The bytes behind the first newline of a read are lost, where the read does not begin with it:
  -- the shell does the same for any bytes there.
  pub shell_loop-newline :
      (c : ℕ) (a b : List ℕ) (reads : List (List ℕ)) (line : List ℕ) (s : S)
      → InLine (c ∷ a)
      → shell_loop sys is_tty ((c ∷ a ++ b'\n' ∷ b) ∷ reads) line s
        ≡ shell_loop sys is_tty ((c ∷ a ++ b'\n' ∷ []) ∷ reads) line s
  unfolding shell_loop
  shell_loop-newline c a b reads line s h = rw (feed-newline (c ∷ a) b line s h) refl
