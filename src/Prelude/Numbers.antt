-- ===== src/Prelude/Numbers.antt =====
-- Products of native numbers, which `omega` takes for unknowns.
use Prim.Native.Nat.{ℕ, ◌*◌, ◌≤◌}
use native.Mathlib.Omega.{arith}

pub mul_mono : (a b c : ℕ) → a ≤ b → a * c ≤ b * c
mul_mono a b c h = grind arith
