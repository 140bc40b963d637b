-- ===== src/Kernel/User.antt =====
-- The kernel's reads and writes of the calling process's memory.
use foxtail.Common.{
  ℕ, zero, suc, ◌+◌, ◌*◌, ◌/◌, ◌%◌, List, [], ◌∷◌, Mem, store, ◌==◌, if◌then◌else◌,
}
use foxtail.Kernel.Data.{higher_half_base}

-- The bytes before the NUL of the string at `p`.
pub read_string : ℕ → Mem → ℕ → List ℕ
read_string zero m p = []
read_string (suc fuel) m p =
    let rest = read_string fuel m (p + 1) in if m p == 0 then [] else m p ∷ rest

-- User memory ends at HIGHER_HALF_BASE.
unfoldable pub user_string : Mem → ℕ → List ℕ
unfolding read_string
user_string m p = read_string higher_half_base m p

-- A string and its NUL.
abbrev pub write_string : Mem → ℕ → List ℕ → Mem
write_string m p [] = store m p 0
write_string m p (c ∷ s) = write_string (store m p c) (p + 1) s

-- A `u32` in memory, lowest byte first.
unfoldable pub write_u32 : Mem → ℕ → ℕ → Mem
write_u32 m p v =
    store (store (store (store m p (v % 256)) (p + 1) (v / 256 % 256)) (p + 2) (v / 65536 % 256))
      (p + 3) (v / 16777216 % 256)

unfoldable pub read_u32 : Mem → ℕ → ℕ
read_u32 m p = m p + 256 * m (p + 1) + 65536 * m (p + 2) + 16777216 * m (p + 3)
