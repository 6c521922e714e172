-- ===== src/Admission/Count.antt =====
-- src/stems/flac-admission.ts: how often a ticket is queued or settled.
use engine_web_adapter.Prelude.{
  ℕ, ◌+◌, ◌≡◌, refl, true, ◌==◌, if◌then◌else◌, Option, List, [], ◌∷◌, ◌++◌, arith,
}
use engine_web_adapter.Admission.{Settled, waits, without, refuse_all}

abbrev pub hit : ℕ → ℕ → ℕ
hit t w = if w == t then 1 else 0

abbrev pub times : ℕ → List ℕ → ℕ
times t [] = 0
times t (w ∷ ws) = hit t w + times t ws

abbrev pub settlements : ℕ → List Settled → ℕ
settlements t [] = 0
settlements t (x ∷ xs) = hit t x.ticket + settlements t xs

pub times-append : (t : ℕ) (xs ys : List ℕ) → times t (xs ++ ys) ≡ times t xs + times t ys
times-append t [] ys = omega arith
times-append t (x ∷ xs) ys = omega (arith, times-append t xs ys)

pub settlements-append :
    (t : ℕ) (xs ys : List Settled) → settlements t (xs ++ ys) ≡ settlements t xs + settlements t ys
settlements-append t [] ys = omega arith
settlements-append t (x ∷ xs) ys = omega (arith, settlements-append t xs ys)

pub settlements-refuse_all :
    (t : ℕ) (why : Option ℕ) (ws : List ℕ) → settlements t (refuse_all why ws) ≡ times t ws
settlements-refuse_all t why [] = refl
settlements-refuse_all t why (w ∷ ws) = omega (arith, settlements-refuse_all t why ws)

pub times-without :
    (t w : ℕ) (ts : List ℕ) → waits w ts ≡ true → times t (without w ts) + hit t w ≡ times t ts
times-without t w [] e = ground arith
times-without t w (x ∷ ts) e =
    let rest : waits w ts ≡ true → times t (without w ts) + hit t w ≡ times t ts =
      times-without t w ts in
    ground arith
