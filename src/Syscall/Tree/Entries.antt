-- ===== src/Syscall/Tree/Entries.antt =====
-- The loop of sys_delete in kernel/src/syscall.c that removes entries, on a directory's list of slots.
use mathlib.Core.Path.{ap₂}
use foxtail.Common.{
  ℕ, suc, ◌+◌, ◌-◌, ◌≡◌, refl, sym, ap, ◌∙◌, inl, inr, true, false, some, List, [], ◌∷◌, ◌++◌,
  zero-add, add-zero, arith, length, length-append, take, get_elem?, set, Bool-cases, Outcome, ok,
  ◌==◌, if◌then◌else◌,
}
use foxtail.Fs.Defs.{Inode}
use foxtail.Syscall.Tree.{shift_down, remove_entries}

-- The entries of a directory: the first `num_entries` slots.
abbrev pub entries_of : Inode → List ℕ
entries_of inode = take inode.word0 inode.slots

-- A list without the elements that are `idx`, the others in their order.
abbrev pub without : ℕ → List ℕ → List ℕ
without idx [] = []
without idx (x ∷ xs) = let rest = without idx xs in if x == idx then rest else x ∷ rest

get_elem?-append : (p r : List ℕ) (i : ℕ) → get_elem? (p ++ r) (length p + i) ≡ get_elem? r i
get_elem?-append [] r i = ap (get_elem? r) (zero-add i)
get_elem?-append (x ∷ p) r i =
    let e : length (x ∷ p) + i ≡ suc (length p + i) = omega arith in
    ap (get_elem? (x ∷ (p ++ r))) e ∙ get_elem?-append p r i

set-append : (p r : List ℕ) (v : ℕ) → set (p ++ r) (length p) v ≡ p ++ set r 0 v
set-append [] r v = refl
set-append (x ∷ p) r v = ap (λ l. x ∷ l) (set-append p r v)

snoc : (p : List ℕ) (x : ℕ) (r : List ℕ) → (p ++ (x ∷ [])) ++ r ≡ p ++ (x ∷ r)
snoc [] x r = refl
snoc (y ∷ p) x r = ap (λ l. y ∷ l) (snoc p x r)

length-snoc : (p : List ℕ) (x : ℕ) → length (p ++ (x ∷ [])) ≡ length p + 1
length-snoc p x = length-append p (x ∷ [])

shift_step :
    (rounds j next : ℕ) (slots : List ℕ)
    → get_elem? slots (j + 1) ≡ some next
    → shift_down (suc rounds) j slots ≡ shift_down rounds (j + 1) (set slots j next)
unfolding shift_down
shift_step rounds j next slots at = ground arith

-- The loop that closes the gap moves the later entries down by one.
shift_down_lem :
    (r p j : List ℕ) (x : ℕ)
    → (z : ℕ) × (shift_down (length r) (length p) (p ++ (x ∷ (r ++ j))) ≡ ok (p ++ (r ++ (z ∷ j))))
unfolding shift_down
shift_down_lem [] p j x = (x, refl)
shift_down_lem (y ∷ r) p j x =
    let (z, run) = shift_down_lem r (p ++ (y ∷ [])) j y in
    let next : get_elem? (p ++ (x ∷ (y ∷ (r ++ j)))) (length p + 1) ≡ some y =
      get_elem?-append p (x ∷ (y ∷ (r ++ j))) 1 in
    let moved : set (p ++ (x ∷ (y ∷ (r ++ j)))) (length p) y ≡ (p ++ (y ∷ [])) ++ (y ∷ (r ++ j)) =
      set-append p (x ∷ (y ∷ (r ++ j))) y ∙ sym (snoc p y (y ∷ (r ++ j))) in
    (
      z,
      shift_step (length r) (length p) y (p ++ (x ∷ (y ∷ (r ++ j)))) next
          ∙ ap₂ (shift_down (length r)) (sym (length-snoc p y)) moved
          ∙ run
          ∙ ap ok (snoc p y (r ++ (z ∷ j))),
    )

-- One round of the loop, at an entry that goes.
remove_one :
    (rounds i idx x : ℕ) (parent : Inode) (slots : List ℕ)
    → get_elem? parent.slots i ≡ some x
    → (x == idx) ≡ true
    → shift_down (parent.word0 - 1 - i) i (set parent.slots i 0) ≡ ok slots
    → remove_entries (suc rounds) i idx parent
      ≡ remove_entries rounds i idx (record parent { slots = slots; word0 = parent.word0 - 1 })
unfolding remove_entries
remove_one rounds i idx x parent slots at same run = ground arith

-- One round at an entry that stays.
keep_one :
    (rounds i idx x : ℕ) (parent : Inode)
    → get_elem? parent.slots i ≡ some x
    → (x == idx) ≡ false
    → remove_entries (suc rounds) i idx parent ≡ remove_entries rounds (i + 1) idx parent
unfolding remove_entries
keep_one rounds i idx x parent at other = ground arith

-- The directory with other entries, and other words behind them.
abbrev pub with_entries : Inode → ℕ → List ℕ → Inode
with_entries inode num slots = record inode { slots = slots; word0 = num }

-- The loop over the entries from index `length p` on.
pub remove_from :
    (r p j : List ℕ) (idx : ℕ) (parent : Inode)
    → parent.slots ≡ p ++ (r ++ j)
    → parent.word0 ≡ length p + length r
    → (j' : List ℕ) × (remove_entries (length r) (length p) idx parent
        ≡ ok (with_entries parent (length p + length (without idx r)) (p ++ (without idx r ++ j'))))
unfolding remove_entries
remove_from [] p j idx parent slots num = (j, ap ok (ap₂ (with_entries parent) num slots))
remove_from (x ∷ r) p j idx parent slots num = elim (Bool-cases (x == idx)) [
  | inl same ↦
      let (z, run) = shift_down_lem r p j 0 in
      let (j', rest) =
        remove_from r p (z ∷ j) idx (with_entries parent (parent.word0 - 1) (p ++ (r ++ (z ∷ j))))
          refl (omega arith) in
      (
        j',
        remove_one (length r) (length p) idx x parent (p ++ (r ++ (z ∷ j)))
              (ap (λ l. get_elem? l (length p)) slots ∙ head p x (r ++ j)) same
              (ap₂ (λ n l. shift_down n (length p) l) (omega arith)
                  (ap (λ l. set l (length p) 0) slots ∙ set-append p (x ∷ (r ++ j)) 0)
                ∙ run)
            ∙ rest
            ∙ ap (result p j') (sym (dropped same)),
      )
  | inr other ↦
      let (j', rest) =
        remove_from r (p ++ (x ∷ [])) j idx parent (slots ∙ sym (snoc p x (r ++ j)))
          (omega (arith, length-snoc p x)) in
      (
        j',
        keep_one (length r) (length p) idx x parent
              (ap (λ l. get_elem? l (length p)) slots ∙ head p x (r ++ j)) other
            ∙ ap (λ n. remove_entries (length r) n idx parent) (sym (length-snoc p x))
            ∙ rest
            ∙ ap₂ (λ n l. ok (with_entries parent n l)) (size p (without idx r))
                (snoc p x (without idx r ++ j'))
            ∙ ap (result p j') (sym (kept other)),
      )
]
  where
    head : (p : List ℕ) (x : ℕ) (r : List ℕ) → get_elem? (p ++ (x ∷ r)) (length p) ≡ some x
    head p x r =
        ap (get_elem? (p ++ (x ∷ r))) (sym (add-zero (length p))) ∙ get_elem?-append p (x ∷ r) 0

    result : List ℕ → List ℕ → List ℕ → Outcome Inode
    result p j' w = ok (with_entries parent (length p + length w) (p ++ (w ++ j')))

    dropped : (x == idx) ≡ true → without idx (x ∷ r) ≡ without idx r
    dropped same = rw same

    kept : (x == idx) ≡ false → without idx (x ∷ r) ≡ x ∷ without idx r
    kept other = rw other

    size : (p w : List ℕ) → length (p ++ (x ∷ [])) + length w ≡ length p + length (x ∷ w)
    size p w = omega (arith, length-snoc p x)
