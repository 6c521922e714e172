-- ===== src/Admission/Line.antt =====
-- src/stems/flac-admission.ts: the tickets that hold a lease or wait for one, in their order.
use engine_web_adapter.Prelude.{
  ℕ, ◌+◌, ◌≤◌, ◌≡◌, refl, ap, ◌∙◌, Option, ◌==◌, List, [], ◌∷◌, ◌++◌, inl, inr, Bool-cases, arith,
}
use engine_web_adapter.Admission.{
  Outcome, Settled, granted, cancelled, refused, without, refuse_all,
}

-- The tickets ascend from `low` on and stay below `high`.
abbrev pub Ascends : ℕ → ℕ → List ℕ → Type 0
Ascends low high [] = low ≤ high
Ascends low high (t ∷ ts) = (low ≤ t) × Ascends (t + 1) high ts

abbrev pub with_granted : Outcome → ℕ → List ℕ → List ℕ
with_granted granted t ts = t ∷ ts
with_granted cancelled t ts = ts
with_granted (refused why) t ts = ts

-- The granted tickets, in the order of their grants.
abbrev pub grants : List Settled → List ℕ
grants [] = []
grants (x ∷ xs) = with_granted x.outcome x.ticket (grants xs)

with_granted-append :
    (o : Outcome) (t : ℕ) (ts us : List ℕ) → with_granted o t (ts ++ us) ≡ with_granted o t ts ++ us
with_granted-append granted t ts us = refl
with_granted-append cancelled t ts us = refl
with_granted-append (refused why) t ts us = refl

pub grants-append : (xs ys : List Settled) → grants (xs ++ ys) ≡ grants xs ++ grants ys
grants-append [] ys = refl
grants-append (x ∷ xs) ys =
    ap (with_granted x.outcome x.ticket) (grants-append xs ys)
    ∙ with_granted-append x.outcome x.ticket (grants xs) (grants ys)

pub grants-refuse_all : (why : Option ℕ) (ws : List ℕ) → grants (refuse_all why ws) ≡ []
grants-refuse_all why [] = refl
grants-refuse_all why (w ∷ ws) = grants-refuse_all why ws

module _ (high : ℕ) where
  pub Ascends-bounds : (ts : List ℕ) (low : ℕ) → Ascends low high ts → low ≤ high
  Ascends-bounds [] low a = a
  Ascends-bounds (t ∷ ts) low a = omega (arith, a.0, Ascends-bounds ts (t + 1) a.1)

  pub Ascends-weaken :
      (ts : List ℕ) (low low2 : ℕ) → low2 ≤ low → Ascends low high ts → Ascends low2 high ts
  Ascends-weaken [] low low2 le a = omega arith
  Ascends-weaken (t ∷ ts) low low2 le a = (omega (arith, a.0), a.1)

  pub Ascends-raise : (ts : List ℕ) (low : ℕ) → Ascends low high ts → Ascends low (high + 1) ts
  Ascends-raise [] low a = omega arith
  Ascends-raise (t ∷ ts) low a = (a.0, Ascends-raise ts (t + 1) a.1)

  pub Ascends-snoc :
      (ts : List ℕ) (low : ℕ) → Ascends low high ts → Ascends low (high + 1) (ts ++ (high ∷ []))
  Ascends-snoc [] low a = (a, omega arith)
  Ascends-snoc (t ∷ ts) low a = (a.0, Ascends-snoc ts (t + 1) a.1)

  -- A ticket that leaves the line keeps the order of the others.
  pub Ascends-leave :
      (front : List ℕ) (w : ℕ) (ts : List ℕ) (low : ℕ)
      → Ascends low high (front ++ (w ∷ ts))
      → Ascends low high (front ++ ts)
  Ascends-leave [] w ts low a = Ascends-weaken ts (w + 1) low (omega (arith, a.0)) a.1
  Ascends-leave (t ∷ front) w ts low a = (a.0, Ascends-leave front w ts (t + 1) a.1)

  pub Ascends-front :
      (front ts : List ℕ) (low : ℕ) → Ascends low high (front ++ ts) → Ascends low high front
  Ascends-front [] ts low a = Ascends-bounds ts low a
  Ascends-front (t ∷ front) ts low a = (a.0, Ascends-front front ts (t + 1) a.1)

  without-Ascends :
      (t : ℕ) (ts : List ℕ) (low : ℕ) → Ascends low high ts → Ascends low high (without t ts)
  without-Ascends t [] low a = a
  without-Ascends t (w ∷ ts) low a = elim (Bool-cases (w == t)) [
    | inl e ↦ rw e (Ascends-weaken ts (w + 1) low (omega (arith, a.0)) a.1)
    | inr e ↦ rw e (a.0, without-Ascends t ts (w + 1) a.1)
  ]

  pub Ascends-without :
      (front : List ℕ) (t : ℕ) (ts : List ℕ) (low : ℕ)
      → Ascends low high (front ++ ts)
      → Ascends low high (front ++ without t ts)
  Ascends-without [] t ts low a = without-Ascends t ts low a
  Ascends-without (x ∷ front) t ts low a = (a.0, Ascends-without front t ts (x + 1) a.1)
