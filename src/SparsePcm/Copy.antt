-- ===== src/SparsePcm/Copy.antt =====
-- The copy loop of the window read: what each byte of the window holds after it.
use engine_web_adapter.Prelude.{
  ℕ, ◌+◌, ◌-◌, ◌*◌, ◌≤◌, ◌<◌, ◌≡◌, refl, ◌&&◌, ◌∙◌, ap, inl, inr, List, [], ◌∷◌, ltb, leb,
  if◌then◌else◌, Bool-cases, arith, get_or, length, min, max, subarray, set_at, length-subarray,
  get_or-subarray, length-set_at, get_or-set_at,
}
use engine_web_adapter.SparsePcm.{Interval, end_frame, copy_interval, copy_intervals}
use engine_web_adapter.SparsePcm.Layout.{Ordered, canonical_or, canonical_before, mul_mono, sub-mul}

pub sub_mul : (a b c : ℕ) → (a - b) * c ≡ a * c - b * c
sub_mul a b c = elim (Bool-cases (leb b a)) [
  | inl p ↦ omega (arith, sub-mul a b c (ground arith))
  | inr p ↦
      let h : a ≤ b = ground arith in
      omega (arith, mul_mono a b c h, ap (λ (t : ℕ). t * c) (at_zero h))
]
  where
    at_zero : a ≤ b → a - b ≡ 0
    at_zero h = omega arith

pub max_mul : (a b c : ℕ) → max a b * c ≡ max (a * c) (b * c)
max_mul a b c = elim (Bool-cases (leb b a)) [
  | inl p ↦
      let h : b ≤ a = ground arith in
      omega (arith, mul_mono b a c h, ap (λ (t : ℕ). t * c) (at_left h))
  | inr p ↦
      let h : a ≤ b = ground arith in
      omega (arith, mul_mono a b c h, ap (λ (t : ℕ). t * c) (at_right h))
]
  where
    at_left : b ≤ a → max a b ≡ a
    at_left h = omega arith

    at_right : a ≤ b → max a b ≡ b
    at_right h = omega arith

pub min_mul : (a b c : ℕ) → min a b * c ≡ min (a * c) (b * c)
min_mul a b c = elim (Bool-cases (leb b a)) [
  | inl p ↦
      let h : b ≤ a = ground arith in
      omega (arith, mul_mono b a c h, ap (λ (t : ℕ). t * c) (at_right h))
  | inr p ↦
      let h : a ≤ b = ground arith in
      omega (arith, mul_mono a b c h, ap (λ (t : ℕ). t * c) (at_left h))
]
  where
    at_right : b ≤ a → min a b ≡ b
    at_right h = omega arith

    at_left : a ≤ b → min a b ≡ a
    at_left h = omega arith

-- The loop body with every frame number turned into a byte number.
copy_bytes : ℕ → ℕ → ℕ → ℕ → ℕ → List ℕ → List ℕ → ℕ → List ℕ
copy_bytes A E S P ps source output offset =
    if leb (min P E) (max S A)
    then output
    else set_at output (max S A - S) (
        subarray source (offset + (max S A - A) - ps)
          (offset + (max S A - A) - ps + (min P E - max S A)))

leb-mul : (a b c : ℕ) → 1 ≤ c → leb a b ≡ leb (a * c) (b * c)
leb-mul a b c h = elim (Bool-cases (leb a b)) [
  | inl p ↦ let q : a * c ≤ b * c = mul_mono a b c (ground arith) in ground arith
  | inr p ↦ let q : (b + 1) * c ≤ a * c = mul_mono (b + 1) a c (ground arith) in ground arith
]

copy_interval-copy_bytes :
    (fb start stop ps : ℕ) (source output : List ℕ) (i : Interval)
    → 1 ≤ fb
    → copy_interval fb start stop ps source output i
      ≡ copy_bytes
          (i.start_frame * fb)
          (end_frame i * fb)
          (start * fb)
          (stop * fb)
          ps
          source
          output
          i.byte_offset
unfolding copy_interval copy_bytes
copy_interval-copy_bytes fb start stop ps source output i h = rw (
  leb-mul (min stop (end_frame i)) (max start i.start_frame) fb h,
  sub_mul (min stop (end_frame i)) (max start i.start_frame) fb,
  sub_mul (max start i.start_frame) start fb,
  sub_mul (max start i.start_frame) i.start_frame fb,
  max_mul start i.start_frame fb,
  min_mul stop (end_frame i) fb,
)

-- What one round reads lies inside the bytes that the window fetched.
abbrev pub Fits : ℕ → ℕ → ℕ → ℕ → ℕ → ℕ → ℕ → Type 0
Fits A E S P ps pe offset = (A < E) × (ps ≤ offset + (max S A - A)) × (offset + (min P E - A) ≤ pe)

-- A slice of a slice.
length_slice :
    (packed : List ℕ) (ps pe at to : ℕ)
    → pe ≤ length packed
    → ps + to ≤ pe
    → length (subarray (subarray packed ps pe) at to) ≡ to - at
length_slice packed ps pe at to hp h =
    omega (arith, length-subarray packed ps pe, length-subarray (subarray packed ps pe) at to)

get_or_slice :
    (packed : List ℕ) (ps pe at to k place : ℕ)
    → ps + to ≤ pe
    → k < to - at
    → place ≡ ps + at + k
    → get_or (subarray (subarray packed ps pe) at to) k 0 ≡ get_or packed place 0
get_or_slice packed ps pe at to k place h hk e =
    let same : ps + (at + k) ≡ place = omega arith in
    ground (
      arith,
      get_or-subarray (subarray packed ps pe) at to k 0,
      get_or-subarray packed ps pe (at + k) 0,
      ap (λ p. get_or packed p 0) same,
    )

length-copy_bytes :
    (A E S P ps pe : ℕ) (packed output : List ℕ) (offset : ℕ)
    → Fits A E S P ps pe offset
    → pe ≤ length packed
    → length output ≡ P - S
    → length (copy_bytes A E S P ps (subarray packed ps pe) output offset) ≡ length output
unfolding copy_bytes
length-copy_bytes A E S P ps pe packed output offset fits hp ho = ground (
  arith,
  length_slice packed ps pe (offset + (max S A - A) - ps)
      (offset + (max S A - A) - ps + (min P E - max S A)),
  length-set_at output
      (subarray (subarray packed ps pe) (offset + (max S A - A) - ps)
        (offset + (max S A - A) - ps + (min P E - max S A)))
      (max S A - S),
)

-- One round writes the interval's bytes to their places in the window and leaves the others.
get_or-copy_bytes :
    (A E S P ps pe : ℕ) (packed output : List ℕ) (offset j : ℕ)
    → Fits A E S P ps pe offset
    → pe ≤ length packed
    → length output ≡ P - S
    → S + j < P
    → get_or (copy_bytes A E S P ps (subarray packed ps pe) output offset) j 0 ≡ (
        if leb A (S + j) && ltb (S + j) E
        then get_or packed (offset + (S + j - A)) 0
        else get_or output j 0)
unfolding copy_bytes
get_or-copy_bytes A E S P ps pe packed output offset j fits hp ho hj =
    let at = offset + (max S A - A) - ps in
    let to = at + (min P E - max S A) in
    ground (
      arith,
      length_slice packed ps pe at to,
      get_or-set_at output (subarray (subarray packed ps pe) at to) (max S A - S) j 0,
      get_or_slice packed ps pe at to (j - (max S A - S)) (offset + (S + j - A)),
    )

-- Every round of the loop reads inside the bytes that the window fetched.
abbrev pub AllFit : ℕ → ℕ → ℕ → ℕ → ℕ → List Interval → Type 0
AllFit fb S P ps pe [] = Unit {0}
AllFit fb S P ps pe (i ∷ is) =
    Fits (i.start_frame * fb) (end_frame i * fb) S P ps pe i.byte_offset × AllFit fb S P ps pe is

module _ (fb start stop ps pe : ℕ) (packed : List ℕ) (positive : 1 ≤ fb)
    (fetched : pe ≤ length packed) where
  length-copy_interval :
      (output : List ℕ) (i : Interval)
      → Fits (i.start_frame * fb) (end_frame i * fb) (start * fb) (stop * fb) ps pe i.byte_offset
      → length output ≡ stop * fb - start * fb
      → length (copy_interval fb start stop ps (subarray packed ps pe) output i) ≡ length output
  length-copy_interval output i fits e =
      rw (copy_interval-copy_bytes fb start stop ps (subarray packed ps pe) output i positive) (
        length-copy_bytes (i.start_frame * fb) (end_frame i * fb) (start * fb) (stop * fb) ps pe
          packed output i.byte_offset fits fetched e)

  get_or-copy_interval :
      (output : List ℕ) (i : Interval) (j : ℕ)
      → Fits (i.start_frame * fb) (end_frame i * fb) (start * fb) (stop * fb) ps pe i.byte_offset
      → length output ≡ stop * fb - start * fb
      → start * fb + j < stop * fb
      → get_or (copy_interval fb start stop ps (subarray packed ps pe) output i) j 0
        ≡ canonical_or fb (i ∷ []) packed (get_or output j 0) (start * fb + j)
  get_or-copy_interval output i j fits e h =
      rw (copy_interval-copy_bytes fb start stop ps (subarray packed ps pe) output i positive) (
        get_or-copy_bytes (i.start_frame * fb) (end_frame i * fb) (start * fb) (stop * fb) ps pe
          packed output i.byte_offset j fits fetched e h)

  pub length-copy_intervals :
      (is : List Interval) (output : List ℕ)
      → AllFit fb (start * fb) (stop * fb) ps pe is
      → length output ≡ stop * fb - start * fb
      → length (copy_intervals fb start stop ps (subarray packed ps pe) is output) ≡ length output
  unfolding copy_intervals
  length-copy_intervals [] output fits e = refl
  length-copy_intervals (i ∷ is) output fits e =
      let step = length-copy_interval output i fits.0 e in
      length-copy_intervals is (copy_interval fb start stop ps (subarray packed ps pe) output i)
        fits.1 (step ∙ e)
      ∙ step

  -- After the loop each byte of the window is the canonical one, or what it was where no interval lies.
  pub get_or-copy_intervals :
      (previous : ℕ) (is : List Interval) (output : List ℕ) (j : ℕ)
      → Ordered previous is
      → AllFit fb (start * fb) (stop * fb) ps pe is
      → length output ≡ stop * fb - start * fb
      → start * fb + j < stop * fb
      → get_or (copy_intervals fb start stop ps (subarray packed ps pe) is output) j 0
        ≡ canonical_or fb is packed (get_or output j 0) (start * fb + j)
  unfolding copy_intervals
  get_or-copy_intervals previous [] output j o fits e h = refl
  get_or-copy_intervals previous (i ∷ is) output j o fits e h =
      let next = copy_interval fb start stop ps (subarray packed ps pe) output i in
      let length_next = length-copy_interval output i fits.0 e ∙ e in
      ground (
        arith,
        get_or-copy_intervals (end_frame i) is next j o.2 fits.1 length_next h,
        get_or-copy_interval output i j fits.0 e h,
        canonical_before fb (end_frame i) is packed (get_or next j 0) (start * fb + j) o.2,
      )
