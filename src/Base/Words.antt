-- ===== src/Base/Words.antt =====
-- Unsigned machine words, whose arithmetic wraps around.
use Prim.Native.Nat.{ℕ, ◌+◌, ◌-◌, ◌%◌, ◌^◌}

-- `a - b` on a uint64_t
abbrev pub minus : ℕ → ℕ → ℕ
minus a b = (a + (2 ^ 64 - b)) % 2 ^ 64
