-- ===== src/Admission/Live.antt =====
-- src/stems/flac-admission.ts: the leases that are not released.
use engine_web_adapter.Prelude.{
  ℕ, zero, suc, ◌+◌, ◌≡◌, refl, Bool, true, false, some, List, [], ◌∷◌, ◌++◌, arith, get_elem?,
}
use engine_web_adapter.Admission.{mark}

abbrev pub live : List Bool → ℕ
live [] = 0
live (true ∷ flags) = live flags
live (false ∷ flags) = suc (live flags)

pub live-append : (flags : List Bool) → live (flags ++ (false ∷ [])) ≡ live flags + 1
live-append [] = refl
live-append (true ∷ flags) = live-append flags
live-append (false ∷ flags) = omega (arith, live-append flags)

pub live-mark :
    (i : ℕ) (flags : List Bool)
    → get_elem? flags i ≡ some false
    → live (mark i flags) + 1 ≡ live flags
live-mark i [] e = ground arith
live-mark zero (true ∷ flags) e = ground arith
live-mark zero (false ∷ flags) e = omega arith
live-mark (suc i) (true ∷ flags) e = live-mark i flags e
live-mark (suc i) (false ∷ flags) e = omega (arith, live-mark i flags e)
