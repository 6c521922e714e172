-- ===== src/Pump/Canonical.antt =====
-- src/stems/pump.ts: the planes of a window are those of the canonical PCM it was read from.
use engine_web_adapter.Prelude.{
  ℕ, zero, suc, ◌+◌, ◌-◌, ◌*◌, ◌/◌, ◌≤◌, ◌<◌, ◌≡◌, refl, sym, ap, ◌∙◌, ◌⊎◌, inl, inr, if◌then◌else◌,
  List, arith, get_or, subarray, get_or-subarray, lt→ltb, mul_mono, ℤ,
}
use engine_web_adapter.Pump.Samples.{sample16, sample24, sample_at, plane_of, planes_of}

-- The planes of frames `start ..< start + count` of the canonical PCM.
abbrev pub canonical_planes : ℕ → ℕ → List ℕ → ℕ → ℕ → List (List ℤ)
canonical_planes channels bit_depth pcm start count =
    planes_of channels bit_depth pcm start count channels 0

-- Two byte arrays with the same bytes at two offsets.
abbrev SameAt : ℕ → List ℕ → ℕ → List ℕ → ℕ → Type 0
SameAt n xs i ys j = (k : ℕ) → k < n → get_or xs (i + k) 0 ≡ get_or ys (j + k) 0

i_zero : (i : ℕ) → i ≡ i + 0
i_zero i = omega arith

first_same :
    (n i j : ℕ) (xs ys : List ℕ) → 1 ≤ n → SameAt n xs i ys j → get_or xs i 0 ≡ get_or ys j 0
first_same n i j xs ys one same =
    ap (λ k. get_or xs k 0) (i_zero i) ∙ same 0 one ∙ sym (ap (λ k. get_or ys k 0) (i_zero j))

sample_same :
    (bit_depth i j : ℕ) (xs ys : List ℕ)
    → (bit_depth ≡ 16) ⊎ (bit_depth ≡ 24)
    → SameAt (bit_depth / 8) xs i ys j
    → sample_at bit_depth xs i ≡ sample_at bit_depth ys j
unfolding sample_at sample16 sample24
sample_same bit_depth i j xs ys (inl d) same =
    let a = first_same (bit_depth / 8) i j xs ys (omega arith) same in
    let b : get_or xs (i + 1) 0 ≡ get_or ys (j + 1) 0 = same 1 (omega arith) in rw (d, a, b) refl
sample_same bit_depth i j xs ys (inr d) same =
    let a = first_same (bit_depth / 8) i j xs ys (omega arith) same in
    let b : get_or xs (i + 1) 0 ≡ get_or ys (j + 1) 0 = same 1 (omega arith) in
    let c : get_or xs (i + 2) 0 ≡ get_or ys (j + 2) 0 = same 2 (omega arith) in rw (d, a, b, c) refl

module _ (channels bit_depth : ℕ) (pcm : List ℕ) (base size : ℕ)
    (known : (bit_depth ≡ 16) ⊎ (bit_depth ≡ 24)) where
  abbrev width : ℕ
  width = channels * (bit_depth / 8)

  -- `size` frames of the canonical PCM, from frame `base` on.
  abbrev cut : List ℕ
  cut = subarray pcm (base * width) (base * width + size * width)

  cut_same :
      (frame channel : ℕ)
      → frame < size
      → channel < channels
      → SameAt
          (bit_depth / 8)
          cut
          (frame * width + channel * (bit_depth / 8))
          pcm
          ((base + frame) * width + channel * (bit_depth / 8))
  cut_same frame channel inside low k small =
      let place : ℕ = frame * width + channel * (bit_depth / 8) + k in
      let rows : (frame + 1) * width ≤ size * width =
        mul_mono (frame + 1) size width (omega arith) in
      let columns : (channel + 1) * (bit_depth / 8) ≤ channels * (bit_depth / 8) =
        mul_mono (channel + 1) channels (bit_depth / 8) (omega arith) in
      let row : (frame + 1) * width ≡ frame * width + width = grind arith in
      let column : (channel + 1) * (bit_depth / 8) ≡ channel * (bit_depth / 8) + bit_depth / 8 =
        grind arith in
      let bound : place < base * width + size * width - base * width = omega arith in
      let shift : base * width + place ≡ (base + frame) * width + channel * (bit_depth / 8) + k =
        grind arith in
      get_or-subarray pcm (base * width) (base * width + size * width) place 0
      ∙ ap (λ b. if b then get_or pcm (base * width + place) 0 else 0) (lt→ltb place _ bound)
      ∙ ap (λ i. get_or pcm i 0) shift

  plane-cut :
      (count channel frame : ℕ)
      → frame + count ≤ size
      → channel < channels
      → plane_of channels bit_depth cut channel count frame
        ≡ plane_of channels bit_depth pcm channel count (base + frame)
  unfolding plane_of
  plane-cut zero channel frame inside low = refl
  plane-cut (suc count) channel frame inside low =
      let head =
        sample_same bit_depth (frame * width + channel * (bit_depth / 8))
          ((base + frame) * width + channel * (bit_depth / 8)) cut pcm known
          (cut_same frame channel (omega arith) low) in
      let tail = plane-cut count channel (frame + 1) (omega arith) low in
      let next : base + (frame + 1) ≡ base + frame + 1 = omega arith in
      let tail2 = tail ∙ ap (plane_of channels bit_depth pcm channel count) next in cc

  planes-cut :
      (count frame left channel : ℕ)
      → frame + count ≤ size
      → channel + left ≤ channels
      → planes_of channels bit_depth cut frame count left channel
        ≡ planes_of channels bit_depth pcm (base + frame) count left channel
  unfolding planes_of
  planes-cut count frame zero channel inside low = refl
  planes-cut count frame (suc left) channel inside low =
      let head = plane-cut count channel frame inside (omega arith) in
      let tail = planes-cut count frame left (channel + 1) inside (omega arith) in cc

  -- A run of frames inside the cut has the planes of the canonical PCM.
  pub canonical_planes-cut :
      (first count : ℕ)
      → first + count ≤ size
      → planes_of channels bit_depth cut first count channels 0
        ≡ canonical_planes channels bit_depth pcm (base + first) count
  canonical_planes-cut first count inside = planes-cut count first channels 0 inside (omega arith)
