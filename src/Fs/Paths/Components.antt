-- ===== src/Fs/Paths/Components.antt =====
-- get_inode_by_path of kernel/src/fs.c against a walk over the elements of the path.
use foxtail.Common.{
  ℕ, zero, suc, ◌+◌, ◌≤◌, ◌<◌, ◌≡◌, ◌⊎◌, refl, sym, ap, ◌∙◌, inl, inr, Bool, true, false, Option,
  none, some, List, [], ◌∷◌, arith, length, ◌==◌, if◌then◌else◌, Bool-cases, Outcome, ok, ◌>>=◌,
  bind_ext, subst,
}
use foxtail.Fs.Defs.{Fs, filename_max_len}
use foxtail.Fs.Paths.{
  skip_slashes, component, walk_element, get_inode_by_path_helper, get_inode_by_path,
}

-- The elements of a path: the runs of bytes between slashes, without the empty ones.
abbrev pub push : List ℕ → List (List ℕ) → List (List ℕ)
push [] es = es
push (c ∷ e) es = (c ∷ e) ∷ es

unfoldable pub split : List ℕ → List ℕ × List (List ℕ)
split [] = ([], [])
split (c ∷ path) = let (e, es) = split path in if c == b'/' then ([], push e es) else (c ∷ e, es)

unfoldable pub components : List ℕ → List (List ℕ)
unfolding split
components path = let (e, es) = split path in push e es

-- The walk: one element after another, until one leads nowhere.
unfoldable pub walk : Fs → Option ℕ → List (List ℕ) → Bool → Outcome (Option ℕ)
walk fs none es first_elem = ok none
walk fs (some base) [] first_elem = ok (some base)
walk fs (some base) (e ∷ es) first_elem =
    walk_element fs base e first_elem >>= λ next. walk fs next es false

components-skip_slashes : (path : List ℕ) → components (skip_slashes path) ≡ components path
unfolding components skip_slashes
components-skip_slashes [] = refl
components-skip_slashes (c ∷ path) = ground (arith, components-skip_slashes path)

length-skip_slashes : (path : List ℕ) → length (skip_slashes path) ≤ length path
unfolding skip_slashes
length-skip_slashes [] = omega arith
length-skip_slashes (c ∷ path) = ground (arith, length-skip_slashes path)

-- What is left of the slashes does not begin with one.
abbrev StartsElement : List ℕ → Type 0
StartsElement [] = Unit
StartsElement (c ∷ path) = (c == b'/') ≡ false

skip_slashes-StartsElement : (path : List ℕ) → StartsElement (skip_slashes path)
unfolding skip_slashes
skip_slashes-StartsElement [] = tt
skip_slashes-StartsElement (c ∷ path) = elim (Bool-cases (c == b'/')) [
  | inl slash ↦ rw slash (skip_slashes-StartsElement path)
  | inr other ↦ rw other other
]

-- `component` takes the first run of bytes, or as much of it as there is room for.
component_lem :
    (room : ℕ) (path : List ℕ)
    → let (elem, rest) = component room path in
      (length elem + length rest ≡ length path)
      × ((length elem ≡ room) × (room ≤ length (split path).0)
          ⊎ (elem ≡ (split path).0) × (components rest ≡ (split path).1))
unfolding component components
component_lem zero path = (omega arith, inl (refl, omega arith))
component_lem (suc room) [] = (refl, inr (refl, refl))
component_lem (suc room) (c ∷ path) =
    let (size, first) = component_lem room path in
    elim (Bool-cases (c == b'/')) [
      | inl slash ↦ rw slash (omega arith, inr (refl, rw slash))
      | inr other ↦ rw other (
        omega arith,
        elim first [
          | inl (full, long) ↦ inl (omega arith, omega arith)
          | inr (same, more) ↦ inr (ap (λ e. c ∷ e) same, more)
        ],
      )
    ]

-- Two elements that are both too long for `path_buf` are walked alike, and lead to no inode.
walk_element_long :
    (fs : Fs) (base : ℕ) (e elem : List ℕ) (first_elem : Bool) (f g : Option ℕ → Outcome (Option ℕ))
    → filename_max_len ≤ length e
    → filename_max_len ≤ length elem
    → f none ≡ g none
    → (walk_element fs base e first_elem >>= f) ≡ (walk_element fs base elem first_elem >>= g)
unfolding walk_element
walk_element_long fs base e elem first_elem f g long long' same = ground arith

pub walk_none : (fs : Fs) (es : List (List ℕ)) (b : Bool) → walk fs none es b ≡ ok none
unfolding walk
walk_none fs es b = refl

helper_none :
    (fuel : ℕ) (fs : Fs) (path : List ℕ) (b : Bool)
    → get_inode_by_path_helper (suc fuel) fs none path b ≡ ok none
unfolding get_inode_by_path_helper
helper_none fuel fs path b = refl

helper_end :
    (fuel : ℕ) (fs : Fs) (base : ℕ) (path : List ℕ) (b : Bool)
    → skip_slashes path ≡ []
    → get_inode_by_path_helper (suc fuel) fs (some base) path b ≡ ok (some base)
unfolding get_inode_by_path_helper
helper_end fuel fs base path b e = ground arith

helper_step :
    (fuel : ℕ) (fs : Fs) (base c : ℕ) (path more : List ℕ) (b : Bool)
    → skip_slashes path ≡ c ∷ more
    → let (elem, rest) = component filename_max_len (c ∷ more) in
      get_inode_by_path_helper (suc fuel) fs (some base) path b
      ≡ (walk_element fs base elem b >>= λ next. get_inode_by_path_helper fuel fs next rest false)
unfolding get_inode_by_path_helper
helper_step fuel fs base c path more b e = ground arith

-- A path that begins with an element is that element and the others.
components-cons :
    (c : ℕ) (more : List ℕ)
    → (c == b'/') ≡ false
    → components (c ∷ more) ≡ (split (c ∷ more)).0 ∷ (split (c ∷ more)).1
unfolding components
components-cons c more other = rw other refl

pub walk-nil : (fs : Fs) (base : ℕ) (b : Bool) → walk fs (some base) [] b ≡ ok (some base)
unfolding walk
walk-nil fs base b = refl

pub components-nil : components [] ≡ []
unfolding components
components-nil = refl

pub walk-cons :
    (fs : Fs) (base : ℕ) (e : List ℕ) (es : List (List ℕ)) (b : Bool)
    → walk fs (some base) (e ∷ es) b ≡ (walk_element fs base e b >>= λ next. walk fs next es false)
unfolding walk
walk-cons fs base e es b = refl

split-cons :
    (c : ℕ) (more : List ℕ) → (c == b'/') ≡ false → (split (c ∷ more)).0 ≡ c ∷ (split more).0
unfolding split
split-cons c more other = rw other refl

descend :
    (fuel : ℕ) (fs : Fs) (base c : ℕ) (more : List ℕ) (b : Bool)
    → ((next : Option ℕ) (rest : List ℕ)
        → length rest < length (c ∷ more)
        → get_inode_by_path_helper (suc fuel) fs next rest false
          ≡ walk fs next (components rest) false)
    → (c == b'/') ≡ false
    → let (elem, rest) = component filename_max_len (c ∷ more) in
      (walk_element fs base elem b >>= λ next.
      get_inode_by_path_helper (suc fuel) fs next rest false)
      ≡ walk fs (some base) (components (c ∷ more)) b
descend fuel fs base c more b ih other =
    let (elem, rest) = component filename_max_len (c ∷ more) in
    let (size, first) = component_lem filename_max_len (c ∷ more) in
    let spec = components-cons c more other in
    elim first [
      | inl (full, long) ↦
          walk_element_long fs base elem (split (c ∷ more)).0 b
            (λ next. get_inode_by_path_helper (suc fuel) fs next rest false)
            (λ next. walk fs next (split (c ∷ more)).1 false) (omega arith) (omega arith)
            (helper_none fuel fs rest false ∙ sym (walk_none fs (split (c ∷ more)).1 false))
          ∙ sym (ap (λ es. walk fs (some base) es b) spec ∙ walk-cons fs base _ _ b)
      | inr (same, others) ↦
          let run = λ (next : Option ℕ). get_inode_by_path_helper (suc fuel) fs next rest false in
          let shorter : length rest < length (c ∷ more) =
            omega (arith, ap length same, ap length (split-cons c more other)) in
          bind_ext (walk_element fs base elem b) run
            (λ next. walk fs next (split (c ∷ more)).1 false)
            (λ next. ih next rest shorter ∙ ap (λ es. walk fs next es false) others)
          ∙ ap (λ e. walk_element fs base e b >>= λ next. walk fs next (split (c ∷ more)).1 false)
              same
          ∙ sym (ap (λ es. walk fs (some base) es b) spec ∙ walk-cons fs base _ _ b)
    ]

helper_walk :
    (fuel : ℕ) (fs : Fs) (base : Option ℕ) (path : List ℕ) (b : Bool)
    → length path < fuel
    → get_inode_by_path_helper (suc fuel) fs base path b ≡ walk fs base (components path) b
helper_walk zero fs base path b lt = elim lt [ ]
helper_walk (suc fuel) fs none path b lt =
    helper_none (suc fuel) fs path b ∙ sym (walk_none fs (components path) b)
helper_walk (suc fuel) fs (some base) path b lt =
    go (skip_slashes path) refl (λ next rest h. helper_walk fuel fs next rest false h)
  where
    go :
        (left : List ℕ)
        → skip_slashes path ≡ left
        → ((next : Option ℕ) (rest : List ℕ)
            → length rest < fuel
            → get_inode_by_path_helper (suc fuel) fs next rest false
              ≡ walk fs next (components rest) false)
        → get_inode_by_path_helper (suc (suc fuel)) fs (some base) path b
          ≡ walk fs (some base) (components path) b
    go [] e ih =
        helper_end (suc fuel) fs base path b e
        ∙ sym (ap (λ es. walk fs (some base) es b) (all e) ∙ walk-nil fs base b)
      where
        all : skip_slashes path ≡ [] → components path ≡ []
        all e = sym (components-skip_slashes path) ∙ ap components e ∙ components-nil
    go (c ∷ more) e ih =
        helper_step (suc fuel) fs base c path more b e
        ∙ descend fuel fs base c more b
            (λ next rest h. ih next rest (omega (arith, length-skip_slashes path, ap length e)))
            (subst StartsElement e (skip_slashes-StartsElement path))
        ∙ ap (λ es. walk fs (some base) es b) (sym (ap components e) ∙ components-skip_slashes path)

-- get_inode_by_path terminates, and its result, a null pointer or a fault included, is that of
-- walking the elements of the path one after another from the base, for every path.
pub get_inode_by_path-walk :
    (fs : Fs) (base : ℕ) (path : List ℕ)
    → get_inode_by_path fs base path ≡ walk fs (some base) (components path) true
unfolding get_inode_by_path
get_inode_by_path-walk fs base path =
    ap (λ n. get_inode_by_path_helper n fs (some base) path true) two
    ∙ helper_walk (suc (length path)) fs (some base) path true (omega arith)
  where
    two : length path + 2 ≡ suc (suc (length path))
    two = omega arith
