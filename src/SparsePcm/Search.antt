-- ===== src/SparsePcm/Search.antt =====
-- `firstIntersecting` finds the first interval that ends after a frame.
use engine_web_adapter.Prelude.{
  ℕ, zero, suc, ◌+◌, ◌-◌, ◌/◌, ◌≤◌, ◌<◌, ◌≡◌, true, false, inl, inr, List, some, ltb, leb,
  Bool-cases, arith, length, get_elem?, get_elem?_within, get_elem?_past,
}
use engine_web_adapter.SparsePcm.{Interval, end_frame, first_from, first_intersecting}
use engine_web_adapter.SparsePcm.Layout.{Ordered, end_mono}

abbrev pub EndBefore : List Interval → ℕ → ℕ → Type 0
EndBefore is n frame =
    (m : ℕ) (i : Interval) → m < n → get_elem? is m ≡ some i → end_frame i ≤ frame

abbrev pub EndAfter : List Interval → ℕ → ℕ → Type 0
EndAfter is n frame = (m : ℕ) (i : Interval) → n ≤ m → get_elem? is m ≡ some i → frame < end_frame i

-- One round of the search, by its branches.
first_from_done :
    (fuel : ℕ) (is : List Interval) (frame low high : ℕ)
    → ltb low high ≡ false
    → first_from (suc fuel) is frame low high ≡ low
unfolding first_from
first_from_done fuel is frame low high done = rw (done, first_from)

first_from_up :
    (fuel : ℕ) (is : List Interval) (frame low high : ℕ) (x : Interval)
    → ltb low high ≡ true
    → get_elem? is (low + (high - low) / 2) ≡ some x
    → leb (end_frame x) frame ≡ true
    → first_from (suc fuel) is frame low high
      ≡ first_from fuel is frame (low + (high - low) / 2 + 1) high
unfolding first_from
first_from_up fuel is frame low high x more e up = ground arith

first_from_down :
    (fuel : ℕ) (is : List Interval) (frame low high : ℕ) (x : Interval)
    → ltb low high ≡ true
    → get_elem? is (low + (high - low) / 2) ≡ some x
    → leb (end_frame x) frame ≡ false
    → first_from (suc fuel) is frame low high
      ≡ first_from fuel is frame low (low + (high - low) / 2)
unfolding first_from
first_from_down fuel is frame low high x more e down = ground arith

-- What the search promises of its result.
abbrev pub Finds : List Interval → ℕ → ℕ → Type 0
Finds is frame r = EndBefore is r frame × EndAfter is r frame × (r ≤ length is)

module _ (previous frame : ℕ) (is : List Interval) (ordered : Ordered previous is) where
  before_next :
      (m : ℕ) (x : Interval)
      → get_elem? is m ≡ some x
      → end_frame x ≤ frame
      → EndBefore is (m + 1) frame
  before_next m x e h n i hn f =
      let q = end_mono previous is n m i x ordered (omega arith) f e in omega arith

  after_here :
      (m : ℕ) (x : Interval) → get_elem? is m ≡ some x → frame < end_frame x → EndAfter is m frame
  after_here m x e h n i hn f = let q = end_mono previous is m n x i ordered hn e f in omega arith

  first_from-Finds :
      (fuel low high : ℕ)
      → low ≤ high
      → high ≤ length is
      → high - low < fuel
      → EndBefore is low frame
      → EndAfter is high frame
      → Finds is frame (first_from fuel is frame low high)
  first_from-Finds zero low high lh hl hf b a = absurd (omega arith)
  first_from-Finds (suc fuel) low high lh hl hf b a = elim (Bool-cases (ltb low high)) [
    | inr done ↦
        let same : high ≡ low = ground arith in
        rw (first_from_done fuel is frame low high done)
          (b, (λ m i hm e. a m i (omega arith) e), omega arith)
    | inl more ↦
        let (x, e) = get_elem?_within is (low + (high - low) / 2) (ground arith) in
        elim (Bool-cases (leb (end_frame x) frame)) [
          | inl up ↦ rw (first_from_up fuel is frame low high x more e up) (
              first_from-Finds fuel (low + (high - low) / 2 + 1) high (ground arith) hl
                (ground arith) (before_next (low + (high - low) / 2) x e (ground arith)) a)
          | inr down ↦ rw (first_from_down fuel is frame low high x more e down) (
              first_from-Finds fuel low (low + (high - low) / 2) (omega arith) (ground arith)
                (ground arith) b (after_here (low + (high - low) / 2) x e (ground arith)))
        ]
  ]

  -- Every interval before the result ends by the frame, and every one from the result on ends after.
  pub first_intersecting-Finds : Finds is frame (first_intersecting is frame)
  unfolding first_intersecting
  first_intersecting-Finds =
      first_from-Finds (suc (length is)) 0 (length is) (omega arith) (omega arith) (omega arith)
        (λ m i h e. absurd (omega arith)) (λ m i h e. cc (get_elem?_past is m h))
