-- ===== src/Base/Word.antt =====
-- uint64 arithmetic.
use Prim.Native.Nat.{ℕ, ◌+◌, ◌-◌, ◌%◌, ◌^◌}

-- `^uint64(0)`.
abbrev pub u64_max : ℕ
u64_max = 2 ^ 64 - 1

-- An addition that nothing guards.
abbrev pub add_u64 : ℕ → ℕ → ℕ
add_u64 a b = (a + b) % 2 ^ 64
