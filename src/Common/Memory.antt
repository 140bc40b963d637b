-- ===== src/Common/Memory.antt =====
-- Memory: a byte at each address, and its update.
use Prim.Native.Nat.{ℕ, ◌+◌}
use mathlib.Core.Path.{◌≡◌}
use mathlib.Core.Logic.{◌≢◌}
use mathlib.Core.List.{List, [], ◌∷◌}
use native.Mathlib.Omega.{arith}
use foxtail.Common.Tests.{◌==◌, if◌then◌else◌}

abbrev pub Mem : Type 0
Mem = ℕ → ℕ

-- `*p = v`
abbrev pub store : Mem → ℕ → ℕ → Mem
store m p v q = if p == q then v else m q

pub store_self : (m : Mem) (p v : ℕ) → store m p v p ≡ v
store_self m p v = ground arith

pub store_ne : (m : Mem) (p v q : ℕ) → p ≢ q → store m p v q ≡ m q
store_ne m p v q h = ground arith

-- The bytes of `l` from address `p` on.
abbrev pub store_list : Mem → ℕ → List ℕ → Mem
store_list m p [] = m
store_list m p (x ∷ xs) = store_list (store m p x) (p + 1) xs
