-- ===== src/Pump/Samples.antt =====
-- src/stems/pump.ts, `deinterleaveCanonicalPcm`. A sample is its numerator: the float that the
-- source stores is the numerator over 2 ^ 15 or 2 ^ 23, which a 32-bit float holds exactly.
use engine_web_adapter.Prelude.{
  ℕ, zero, suc, ◌+◌, ◌*◌, ◌/◌, ◌%◌, ◌^◌, Bool, true, ◌&&◌, leb, ◌==◌, if◌then◌else◌, List, [], ◌∷◌,
  length, get_or, ℤ, signed,
}
use engine_web_adapter.Errors.{range_error, Result, ok, require, ◌>>◌}

-- `view.getInt16(offset, true)`.
unfoldable pub sample16 : List ℕ → ℕ → ℤ
sample16 bytes offset = signed 16 (get_or bytes offset 0 + get_or bytes (offset + 1) 0 * 2 ^ 8)

-- The three bytes, their sign bit set in the eight bits above it, as an int32.
unfoldable pub sample24 : List ℕ → ℕ → ℤ
sample24 bytes offset =
    let sample =
      get_or bytes offset 0
      + get_or bytes (offset + 1) 0 * 2 ^ 8
      + get_or bytes (offset + 2) 0 * 2 ^ 16 in
    signed 32 (if sample / 2 ^ 23 % 2 == 0 then sample else sample + 0xff000000)

unfoldable pub sample_at : ℕ → List ℕ → ℕ → ℤ
unfolding sample16 sample24
sample_at bit_depth bytes offset =
    if bit_depth == 16 then sample16 bytes offset else sample24 bytes offset

-- The samples of `count` frames from `frame` on, in one channel.
unfoldable pub plane_of : ℕ → ℕ → List ℕ → ℕ → ℕ → ℕ → List ℤ
unfolding sample_at
plane_of channels bit_depth bytes channel zero frame = []
plane_of channels bit_depth bytes channel (suc count) frame =
    sample_at bit_depth bytes (frame * (channels * (bit_depth / 8)) + channel * (bit_depth / 8))
    ∷ plane_of channels bit_depth bytes channel count (frame + 1)

-- The planes of `left` channels from `channel` on.
unfoldable pub planes_of : ℕ → ℕ → List ℕ → ℕ → ℕ → ℕ → ℕ → List (List ℤ)
unfolding plane_of
planes_of channels bit_depth bytes first count zero channel = []
planes_of channels bit_depth bytes first count (suc left) channel =
    plane_of channels bit_depth bytes channel count first
    ∷ planes_of channels bit_depth bytes first count left (channel + 1)

abbrev pub all_hold : ℕ → List ℕ → Bool
all_hold frames [] = true
all_hold frames (n ∷ ns) = leb frames n && all_hold frames ns

-- The planes that the loop fills; `plane_lengths` are the lengths of those it is given.
unfoldable pub deinterleave : List ℕ → ℕ → ℕ → ℕ → ℕ → List ℕ → Result (List (List ℤ))
unfolding planes_of
deinterleave bytes first_frame frames channels bit_depth plane_lengths = do
  require ((length plane_lengths == channels) && all_hold frames plane_lengths) range_error
  require (leb ((first_frame + frames) * (channels * (bit_depth / 8))) (length bytes)) range_error
  ok (planes_of channels bit_depth bytes first_frame frames channels 0)
