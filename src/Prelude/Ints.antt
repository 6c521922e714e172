-- ===== src/Prelude/Ints.antt =====
-- Signed numbers over the native naturals, and the two's complement reading of a bit pattern.
use Prim.Native.Nat.{ℕ, ◌-◌, ◌^◌}
use engine_web_adapter.Prelude.Tests.{ltb, if◌then◌else◌}

pub data ℤ : Type 0 where
  pos : ℕ → ℤ
  negsuc : ℕ → ℤ

abbrev pub signed : ℕ → ℕ → ℤ
signed width pattern =
    if ltb pattern (2 ^ (width - 1)) then pos pattern else negsuc (2 ^ width - pattern - 1)
