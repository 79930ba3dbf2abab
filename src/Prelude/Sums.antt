-- ===== src/Prelude/Sums.antt =====
-- Sums modulo 2 ^ 64.
use Prim.Native.Nat.{ℕ, ◌+◌, ◌%◌, ◌^◌}
use mathlib.Core.Path.{◌≡◌}
use native.Mathlib.Omega.{arith}

-- uint64_t a + b
abbrev pub add64 : ℕ → ℕ → ℕ
add64 a b = (a + b) % 2 ^ 64

pub add64_left_comm : (a b c : ℕ) → add64 (add64 a b) c ≡ add64 (add64 a c) b
add64_left_comm a b c = omega arith
