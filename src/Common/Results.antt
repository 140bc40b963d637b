-- ===== src/Common/Results.antt =====
-- What a kernel routine can come to besides returning: it panics, it reads or writes outside its
-- objects (undefined behaviour in C), its loop uses up its fuel, or it takes the bytes of the inode
-- table for those of a file, which the records of this model do not show (`beyond`).
use mathlib.Core.Path.{◌≡◌, refl}

pub data Outcome {ℓ} (A : Type ℓ) : Type ℓ where
  ok : A → Outcome A
  panic fault spin beyond : Outcome A

infixl 5 ◌>>=◌
abbrev pub ◌>>=◌ {ℓ κ} : {A : Type ℓ} {B : Type κ} → Outcome A → (A → Outcome B) → Outcome B
ok a >>= f = f a
panic >>= f = panic
fault >>= f = fault
spin >>= f = spin
beyond >>= f = beyond

-- Laws of the sequence of two steps.
module _ {ℓ κ} {A : Type ℓ} {B : Type κ} where
  -- Where the whole returns, the first step has returned, and the second one on its value.
  pub >>=-eq-ok :
      (first : Outcome A) (next : A → Outcome B) {result : B}
      → (first >>= next) ≡ ok result
      → (value : A) × (first ≡ ok value) × (next value ≡ ok result)
  >>=-eq-ok (ok value) next run = (value, refl, run)
  >>=-eq-ok panic next run = cc
  >>=-eq-ok fault next run = cc
  >>=-eq-ok spin next run = cc
  >>=-eq-ok beyond next run = cc

  pub bind_ext :
      (first : Outcome A) (next other : A → Outcome B)
      → ((value : A) → next value ≡ other value)
      → (first >>= next) ≡ (first >>= other)
  bind_ext (ok value) next other same = same value
  bind_ext panic next other same = refl
  bind_ext fault next other same = refl
  bind_ext spin next other same = refl
  bind_ext beyond next other same = refl

pub ok_injective {ℓ} : {A : Type ℓ} {a b : A} → ok a ≡ ok b → a ≡ b
ok_injective e = cc
