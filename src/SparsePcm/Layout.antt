-- ===== src/SparsePcm/Layout.antt =====
-- How the intervals of an admitted index lie on the timeline and in the packed bytes, and the PCM
-- that they stand for.
pub use engine_web_adapter.Prelude.{mul_mono}
use engine_web_adapter.Prelude.{
  ℕ, ◌+◌, ◌-◌, ◌*◌, ◌≤◌, ◌<◌, ◌≡◌, refl, subst, ◌&&◌, List, [], ◌∷◌, ltb, leb, if◌then◌else◌, arith,
  get_or, zero, suc, some, get_elem?, take, drop,
}
use engine_web_adapter.SparsePcm.{Interval, end_frame}

-- From `previous` and byte `offset` on, the intervals follow one another, none is empty, their
-- bytes are contiguous, and they end by frame `frames` and at byte `bytes`.
abbrev pub Placed : ℕ → ℕ → ℕ → ℕ → ℕ → List Interval → Type 0
Placed frame_bytes frames bytes previous offset [] = (previous ≤ frames) × (offset ≡ bytes)
Placed frame_bytes frames bytes previous offset (i ∷ is) =
    (previous ≤ i.start_frame)
    × (1 ≤ i.frames)
    × (i.byte_offset ≡ offset)
    × Placed frame_bytes frames bytes (i.start_frame + i.frames) (offset + i.frames * frame_bytes)
        is

-- Byte `k` of the canonical PCM: taken from the packed bytes inside an interval, `silence` outside.
abbrev pub canonical_or : ℕ → List Interval → List ℕ → ℕ → ℕ → ℕ
canonical_or frame_bytes [] packed silence k = silence
canonical_or frame_bytes (i ∷ is) packed silence k =
    if leb (i.start_frame * frame_bytes) k && ltb k (end_frame i * frame_bytes)
    then get_or packed (i.byte_offset + (k - i.start_frame * frame_bytes)) 0
    else canonical_or frame_bytes is packed silence k

-- The canonical PCM of the source holds zeros wherever no interval lies.
abbrev pub canonical_byte : ℕ → List Interval → List ℕ → ℕ → ℕ
canonical_byte frame_bytes intervals packed k = canonical_or frame_bytes intervals packed 0 k

pub sub-mul : (a b c : ℕ) → b ≤ a → (a - b) * c + b * c ≡ a * c
sub-mul a b c h = let e : a ≡ (a - b) + b = omega arith in omega (arith, ap' e)
  where
    ap' : a ≡ (a - b) + b → a * c ≡ ((a - b) + b) * c
    ap' e = cc

-- The order of the intervals alone, which a part of the list keeps.
abbrev pub Ordered : ℕ → List Interval → Type 0
Ordered previous [] = Unit {0}
Ordered previous (i ∷ is) =
    (previous ≤ i.start_frame) × (1 ≤ i.frames) × Ordered (i.start_frame + i.frames) is

pub Placed-Ordered :
    (fb frames bytes previous offset : ℕ) (is : List Interval)
    → Placed fb frames bytes previous offset is
    → Ordered previous is
Placed-Ordered fb frames bytes previous offset [] p = tt
Placed-Ordered fb frames bytes previous offset (i ∷ is) p = (
  p.0,
  p.1,
  Placed-Ordered fb frames bytes (i.start_frame + i.frames) (offset + i.frames * fb) is p.3,
)

pub Ordered-take :
    (n previous : ℕ) (is : List Interval) → Ordered previous is → Ordered previous (take n is)
Ordered-take zero previous is p = tt
Ordered-take (suc n) previous [] p = tt
Ordered-take (suc n) previous (i ∷ is) p =
    (p.0, p.1, Ordered-take n (i.start_frame + i.frames) is p.2)

-- No interval after frame `previous` holds an earlier byte.
pub canonical_before :
    (fb previous : ℕ) (is : List Interval) (packed : List ℕ) (d k : ℕ)
    → Ordered previous is
    → k < previous * fb
    → canonical_or fb is packed d k ≡ d
canonical_before fb previous [] packed d k p h = refl
canonical_before fb previous (i ∷ is) packed d k p h = ground (
  arith,
  mul_mono previous i.start_frame fb p.0,
  mul_mono previous (i.start_frame + i.frames) fb (omega arith),
  canonical_before fb (i.start_frame + i.frames) is packed d k p.2,
)

-- Offsets grow along the list, and stay within the packed bytes.
pub offset_bounds :
    (fb frames bytes previous offset : ℕ) (is : List Interval) (n : ℕ) (i : Interval)
    → Placed fb frames bytes previous offset is
    → get_elem? is n ≡ some i
    → (offset ≤ i.byte_offset)
      × (i.byte_offset + i.frames * fb ≤ bytes)
      × (1 ≤ i.frames)
      × (previous ≤ i.start_frame)
offset_bounds fb frames bytes previous offset [] n i p e = cc
offset_bounds fb frames bytes previous offset (x ∷ []) zero i p e = ground arith
offset_bounds fb frames bytes previous offset (x ∷ y ∷ is) zero i p e =
    let last =
      offset_bounds fb frames bytes (x.start_frame + x.frames) (offset + x.frames * fb) (y ∷ is)
        zero y p.3 refl in
    ground (arith, last)
offset_bounds fb frames bytes previous offset (x ∷ is) (suc n) i p e =
    let h =
      offset_bounds fb frames bytes (x.start_frame + x.frames) (offset + x.frames * fb) is n i p.3
        e in
    omega arith

-- The ends grow along the list.
pub end_mono :
    (previous : ℕ) (is : List Interval) (m n : ℕ) (i j : Interval)
    → Ordered previous is
    → m ≤ n
    → get_elem? is m ≡ some i
    → get_elem? is n ≡ some j
    → end_frame i ≤ end_frame j
end_mono previous [] m n i j p h e f = cc
end_mono previous (x ∷ is) zero zero i j p h e f = ground arith
end_mono previous (x ∷ is) zero (suc n) i j p h e f =
    let q = after_start (x.start_frame + x.frames) is n j p.2 f in ground (arith, q)
  where
    after_start :
        (previous : ℕ) (is : List Interval) (n : ℕ) (j : Interval)
        → Ordered previous is
        → get_elem? is n ≡ some j
        → previous ≤ end_frame j
    after_start previous [] n j p f = cc
    after_start previous (y ∷ is) zero j p f = ground arith
    after_start previous (y ∷ is) (suc n) j p f =
        let q = after_start (y.start_frame + y.frames) is n j p.2 f in omega arith
end_mono previous (x ∷ is) (suc m) zero i j p h e f = absurd (omega arith)
end_mono previous (x ∷ is) (suc m) (suc n) i j p h e f =
    end_mono (x.start_frame + x.frames) is m n i j p.2 (omega arith) e f

-- What lies from place `n` on is placed as well.
pub Placed-drop :
    (fb frames bytes previous offset : ℕ) (is : List Interval) (n : ℕ) (x : Interval)
    → Placed fb frames bytes previous offset is
    → get_elem? is n ≡ some x
    → (p : ℕ) × (o : ℕ) × Placed fb frames bytes p o (x ∷ drop (suc n) is)
Placed-drop fb frames bytes previous offset [] n x h e = cc
Placed-drop fb frames bytes previous offset (i ∷ is) zero x h e =
    let same : i ≡ x = cc in
    (previous, offset, subst (λ y. Placed fb frames bytes previous offset (y ∷ is)) same h)
Placed-drop fb frames bytes previous offset (i ∷ is) (suc n) x h e =
    Placed-drop fb frames bytes (i.start_frame + i.frames) (offset + i.frames * fb) is n x h.3 e
