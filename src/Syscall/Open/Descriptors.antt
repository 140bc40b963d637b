-- ===== src/Syscall/Open/Descriptors.antt =====
-- How many descriptors of all processes refer to an inode, and what a write of one descriptor does
-- to that number.
use foxtail.Common.{
  ℕ, zero, suc, ◌+◌, ◌<◌, ◌≡◌, refl, sym, ap, ◌∙◌, true, false, some, List, [], ◌∷◌, arith,
  get_elem?, set, Bool-cases, ◌==◌, ◌||◌, if◌then◌else◌, inl, inr, some_injective,
}
use foxtail.Kernel.{
  Proc, Fd, file_ptr, fd_unmapped, fd_regular_file, fd_regular_directory, same_status,
}
use foxtail.Syscall.Open.{first_unmapped}

-- The descriptor holds inode `i`: its status is that of a file or directory and it points to `i`.
abbrev pub holds : ℕ → Fd → ℕ
holds i d =
    if same_status d.status fd_regular_file || same_status d.status fd_regular_directory
    then elim d.target [ file_ptr j ↦ (if i == j then 1 else 0) | _ ↦ 0 ]
    else 0

abbrev pub count_fds : ℕ → List Fd → ℕ
count_fds i [] = 0
count_fds i (d ∷ fds) = holds i d + count_fds i fds

-- The descriptors of all processes that hold inode `i`.
abbrev pub count_refs : ℕ → List Proc → ℕ
count_refs i [] = 0
count_refs i (p ∷ ptable) = count_fds i p.fds + count_refs i ptable

pub count_fds-set :
    (i n : ℕ) (fds : List Fd) (d new : Fd)
    → get_elem? fds n ≡ some d
    → count_fds i (set fds n new) + holds i d ≡ count_fds i fds + holds i new
count_fds-set i n [] d new at = absurd (ground arith)
count_fds-set i zero (x ∷ fds) d new at =
    let e : holds i x ≡ holds i d = ap (holds i) (some_injective at) in omega arith
count_fds-set i (suc n) (x ∷ fds) d new at = omega (arith, count_fds-set i n fds d new at)

pub count_refs-set :
    (i n : ℕ) (ptable : List Proc) (p new : Proc)
    → get_elem? ptable n ≡ some p
    → count_refs i (set ptable n new) + count_fds i p.fds
      ≡ count_refs i ptable + count_fds i new.fds
count_refs-set i n [] p new at = absurd (ground arith)
count_refs-set i zero (x ∷ ptable) p new at =
    let e : count_fds i x.fds ≡ count_fds i p.fds =
      ap (λ (q : Proc). count_fds i q.fds) (some_injective at) in
    omega arith
count_refs-set i (suc n) (x ∷ ptable) p new at = omega (arith, count_refs-set i n ptable p new at)

-- One process's descriptor `n` is written.
pub count_refs-set_fd :
    (i c n : ℕ) (ptable : List Proc) (p : Proc) (d new : Fd)
    → get_elem? ptable c ≡ some p
    → get_elem? p.fds n ≡ some d
    → count_refs i (set ptable c (record p { fds = set p.fds n new })) + holds i d
      ≡ count_refs i ptable + holds i new
count_refs-set_fd i c n ptable p d new at at' = omega (
  arith,
  count_refs-set i c ptable p (record p { fds = set p.fds n new }) at,
  count_fds-set i n p.fds d new at',
)

-- The search for a descriptor finds the first unmapped one.
pub first_unmapped_sound :
    (fds : List Fd) (b n : ℕ)
    → first_unmapped fds b ≡ some n
    → (d : Fd) × (m : ℕ) × (n ≡ b + m)
      × (get_elem? fds m ≡ some d)
      × (same_status d.status fd_unmapped ≡ true)
      × ((j : ℕ) (e : Fd)
          → j < m
          → get_elem? fds j ≡ some e
          → same_status e.status fd_unmapped ≡ false)
unfolding first_unmapped
first_unmapped_sound [] b n h = ground arith
first_unmapped_sound (d ∷ fds) b n h = elim (Bool-cases (same_status d.status fd_unmapped)) [
  | inl is ↦ (d, 0, ground arith, refl, is, (λ j e lt at. elim lt [ ]))
  | inr other ↦
      let (d', m, sum, at, is, before) = first_unmapped_sound fds (b + 1) n (ground arith) in
      (d', suc m, omega arith, at, is, mapped d fds m other before)
]
  where
    mapped :
        (d : Fd) (fds : List Fd) (m : ℕ)
        → same_status d.status fd_unmapped ≡ false
        → ((j : ℕ) (e : Fd)
            → j < m
            → get_elem? fds j ≡ some e
            → same_status e.status fd_unmapped ≡ false)
        → (j : ℕ) (e : Fd) → j < suc m
        → get_elem? (d ∷ fds) j ≡ some e
        → same_status e.status fd_unmapped ≡ false
    mapped d fds m other before zero e lt at =
        ap (λ (x : Fd). same_status x.status fd_unmapped) (sym (some_injective at)) ∙ other
    mapped d fds m other before (suc j) e lt at = before j e (omega arith) at

pub unmapped_holds : (i : ℕ) (d : Fd) → same_status d.status fd_unmapped ≡ true → holds i d ≡ 0
unmapped_holds i d is = ground arith
