-- ===== src/Prelude/Words.antt =====
-- Machine words: `u32` and `u64` as natural numbers whose arithmetic wraps, as in a release build.
use Prim.Native.Nat.{ℕ, ◌-◌, ◌%◌, ◌^◌}

abbrev pub u32 : ℕ → ℕ
u32 n = n % 2 ^ 32

abbrev pub u64 : ℕ → ℕ
u64 n = n % 2 ^ 64

-- `saturating_sub` stops at 0, as `-` on ℕ does.
abbrev pub saturating_sub : ℕ → ℕ → ℕ
saturating_sub a b = a - b
