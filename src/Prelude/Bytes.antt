-- ===== src/Prelude/Bytes.antt =====
-- Typed arrays: `subarray` and `set`, and text by its code units.
use Prim.Native.Nat.{ℕ, ◌+◌, ◌-◌, ◌≤◌, min}
use mathlib.Core.Path.{◌≡◌, refl}
use Prim.Native.Char.{code}
use Prim.Native.String.{String}
use mathlib.Core.Bool.{Bool, true, false, ◌&&◌}
use mathlib.Core.List.{List, [], ◌∷◌, ◌++◌}
use native.Mathlib.Omega.{arith}
use engine_web_adapter.Prelude.Tests.{◌==◌, leb, ltb, if◌then◌else◌}
use engine_web_adapter.Prelude.Lists.{
  length, take, drop, get_or, length-append, length-take, length-drop, get_or-append, get_or-take,
  get_or-drop,
}

-- A text as its code units; every text the models compare is ASCII.
abbrev pub Text : Type 0
Text = List ℕ

abbrev pub codes : String → Text
codes String.[] = []
codes (String.◌∷◌ c s) = code c ∷ codes s

abbrev pub text_eq : Text → Text → Bool
text_eq [] [] = true
text_eq (a ∷ s) (b ∷ t) = (a == b) && text_eq s t
text_eq _ _ = false

pub text_eq_sound : (s t : Text) → text_eq s t ≡ true → s ≡ t
text_eq_sound [] [] e = refl
text_eq_sound (a ∷ s) (b ∷ t) e =
    let heads : a ≡ b = ground arith in
    let tails = text_eq_sound s t (ground arith) in rw (heads, tails) refl
text_eq_sound [] (b ∷ t) e = absurd (cc)
text_eq_sound (a ∷ s) [] e = absurd (cc)

module _ {ℓ} {A : Type ℓ} where
  -- `bytes.subarray(from, to)`, clamped to the end as the platform does.
  abbrev pub subarray : List A → ℕ → ℕ → List A
  subarray xs from to = take (to - from) (drop from xs)

  -- `target.set(source, offset)`; the callers stay within the target.
  abbrev pub set_at : List A → ℕ → List A → List A
  set_at target offset source =
      take offset target ++ (source ++ drop (offset + length source) target)

  pub length-subarray :
      (xs : List A) (from to : ℕ)
      → length (subarray xs from to) ≡ min (to - from) (length xs - from)
  length-subarray xs from to =
      omega (arith, length-take (to - from) (drop from xs), length-drop from xs)

  pub get_or-subarray :
      (xs : List A) (from to i : ℕ) (d : A)
      → get_or (subarray xs from to) i d ≡ (if ltb i (to - from) then get_or xs (from + i) d else d)
  get_or-subarray xs from to i d =
      ground (arith, get_or-take (to - from) (drop from xs) i d, get_or-drop from xs i d)

  pub length-set_at :
      (t s : List A) (o : ℕ) → o + length s ≤ length t → length (set_at t o s) ≡ length t
  length-set_at t s o h = omega (
    arith,
    length-append (take o t) (s ++ drop (o + length s) t),
    length-append s (drop (o + length s) t),
    length-take o t,
    length-drop (o + length s) t,
  )

module _ {A : Type 0} where
  -- What `set` leaves at each place: the source inside, the old value outside.
  pub get_or-set_at :
      (t s : List A) (o j : ℕ) (d : A)
      → o + length s ≤ length t
      → get_or (set_at t o s) j d
        ≡ (if leb o j && ltb j (o + length s) then get_or s (j - o) d else get_or t j d)
  get_or-set_at t s o j d h = ground (
    arith,
    get_or-append (take o t) (s ++ drop (o + length s) t) j d,
    get_or-append s (drop (o + length s) t) (j - length (take o t)) d,
    length-take o t,
    get_or-take o t j d,
    get_or-drop (o + length s) t (j - length (take o t) - length s) d,
  )
