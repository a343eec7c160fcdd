-- ===== src/Prelude/Int.antt =====
-- Go's `int` where the program tests its sign. `negsuc n` is -(n + 1).
use Prim.Native.Nat.{ℕ, ◌≤◌}
use mathlib.Core.Bool.{Bool, true, false}
use mathlib.Core.Path.{◌≡◌}
use domudns.Prelude.Tests.{ltb}

pub data ℤ : Type 0 where
  pos : ℕ → ℤ
  negsuc : ℕ → ℤ

-- `z < n`, for a constant `n` of the program that is at least 0.
abbrev pub int_ltb : ℤ → ℕ → Bool
int_ltb (pos m) n = ltb m n
int_ltb (negsuc m) n = true

-- `n < z`
abbrev pub int_gtb : ℤ → ℕ → Bool
int_gtb (pos m) n = ltb n m
int_gtb (negsuc m) n = false

abbrev pub InRange : ℕ → ℕ → ℤ → Type 0
InRange lo hi z = (n : ℕ) × (z ≡ pos n) × (lo ≤ n) × (n ≤ hi)
