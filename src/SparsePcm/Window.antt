-- ===== src/SparsePcm/Window.antt =====
-- The window read as a whole: the intervals that it selects, the bytes that it fetches, and what
-- it returns.
use engine_web_adapter.Prelude.{
  ℕ, zero, suc, ◌+◌, ◌-◌, ◌*◌, ◌≤◌, ◌<◌, ◌≡◌, refl, inl, inr, List, [], ◌∷◌, some, min, max, ltb,
  if◌then◌else◌, Bool-cases, arith, get_elem?, take, drop,
}
use engine_web_adapter.SparsePcm.{Interval, end_frame, last_from}
use engine_web_adapter.SparsePcm.Layout.{
  Placed, Ordered, canonical_or, canonical_before, offset_bounds, mul_mono,
}
use engine_web_adapter.SparsePcm.Search.{EndBefore}
use engine_web_adapter.SparsePcm.Copy.{AllFit}

-- How many of the intervals start before `stop`, counted as the loop on `last` does.
pub reach : List Interval → ℕ → ℕ
reach [] stop = 0
reach (i ∷ rest) stop = if ltb i.start_frame stop then suc (reach rest stop) else 0

pub last_from-reach :
    (rest : List Interval) (stop last : ℕ) → last_from rest stop last ≡ last + reach rest stop
unfolding last_from reach
last_from-reach [] stop last = omega arith
last_from-reach (i ∷ rest) stop last = ground (arith, last_from-reach rest stop (last + 1))

-- The intervals that the loop takes in hold every byte before `stop`.
pub canonical-reach :
    (fb previous stop : ℕ) (rest : List Interval) (packed : List ℕ) (d k : ℕ)
    → Ordered previous rest
    → k < stop * fb
    → canonical_or fb (take (reach rest stop) rest) packed d k ≡ canonical_or fb rest packed d k
unfolding reach
canonical-reach fb previous stop [] packed d k o h = refl
canonical-reach fb previous stop (i ∷ rest) packed d k o h = ground (
  arith,
  canonical-reach fb (end_frame i) stop rest packed d k o.2,
  mul_mono stop i.start_frame fb,
  canonical_before fb i.start_frame (i ∷ rest) packed d k (omega arith, o.1, o.2),
)

-- The last interval taken in starts before `stop`.
pub get_elem?-reach :
    (i : Interval) (rest : List Interval) (stop : ℕ)
    → i.start_frame < stop
    → (l : Interval) × (get_elem? (i ∷ rest) (reach rest stop) ≡ some l) × (l.start_frame < stop)
unfolding reach
get_elem?-reach i [] stop h = (i, refl, h)
get_elem?-reach i (j ∷ rest) stop h = elim (Bool-cases (ltb j.start_frame stop)) [
  | inl p ↦ let (l, e, q) = get_elem?-reach j rest stop (ground arith) in (l, rw (p, reach) e, q)
  | inr p ↦ (i, rw (p, reach) refl, h)
]

-- The intervals before the first one found hold no byte of the window.
pub canonical-drop :
    (fb start : ℕ) (is : List Interval) (n : ℕ) (packed : List ℕ) (d k : ℕ)
    → EndBefore is n start
    → start * fb ≤ k
    → canonical_or fb (drop n is) packed d k ≡ canonical_or fb is packed d k
canonical-drop fb start is zero packed d k b h = refl
canonical-drop fb start [] (suc n) packed d k b h = refl
canonical-drop fb start (i ∷ is) (suc n) packed d k b h =
    let q : end_frame i ≤ start = b 0 i (omega arith) refl in
    ground (
      arith,
      mul_mono (end_frame i) start fb q,
      canonical-drop fb start is n packed d k (λ m j hm e. b (suc m) j (omega arith) e) h,
    )

-- Every interval up to the last one fits the fetched bytes.
pub take-AllFit :
    (fb frames bytes previous offset S P ps pe : ℕ) (i : Interval) (is : List Interval) (n : ℕ)
    (l : Interval)
    → 1 ≤ fb
    → Placed fb frames bytes previous offset (i ∷ is)
    → get_elem? (i ∷ is) n ≡ some l
    → ps ≤ i.byte_offset + (max S (i.start_frame * fb) - i.start_frame * fb)
    → S ≤ end_frame i * fb
    → pe ≡ l.byte_offset + (min P (end_frame l * fb) - l.start_frame * fb)
    → l.start_frame * fb ≤ P
    → AllFit fb S P ps pe (take (suc n) (i ∷ is))
take-AllFit fb frames bytes previous offset S P ps pe i is zero l pos p e low hs hpe hl =
    let m = mul_mono 1 i.frames fb p.1 in ((ground arith, low, ground arith), tt)
take-AllFit fb frames bytes previous offset S P ps pe i [] (suc n) l pos p e low hs hpe hl = cc
take-AllFit fb frames bytes previous offset S P ps pe i (j ∷ is) (suc n) l pos p e low hs hpe hl =
    let m = mul_mono 1 i.frames fb p.1 in
    let mj = mul_mono 1 j.frames fb p.3.1 in
    let up = mul_mono (end_frame i) j.start_frame fb p.3.0 in
    let b =
      offset_bounds fb frames bytes (end_frame i) (offset + i.frames * fb) (j ∷ is) n l p.3 e in
    (
      (omega arith, low, omega arith),
      take-AllFit fb frames bytes (end_frame i) (offset + i.frames * fb) S P ps pe j is n l pos p.3
          e (omega arith) (omega arith) hpe hl,
    )
