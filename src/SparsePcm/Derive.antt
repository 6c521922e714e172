-- ===== src/SparsePcm/Derive.antt =====
-- src/stems/sparse-pcm.ts, `deriveSparsePcmIndex`: the index of the packed PCM of a sparse stem.
use engine_web_adapter.Prelude.{
  ℕ, ◌+◌, ◌*◌, ◌&&◌, ◌==◌, if◌then◌else◌, none, some, List, [], ◌∷◌, map, codes,
}
use engine_web_adapter.Errors.{Result, ok, require, ◌>>=◌, ◌>>◌}
use engine_web_adapter.Json.{Value, number, text, array, object, end, field, integer, is_safe}
use engine_web_adapter.SparseFormat.{corrupt, Manifest}
use engine_web_adapter.SparseFormat.{Interval as StemInterval}
use engine_web_adapter.SparseFormat.Encode.{items_of}
use engine_web_adapter.SparseFormat.Validate.{validate_manifest}
use engine_web_adapter.SparsePcm.{Interval, Index, bytes_per_frame}
use engine_web_adapter.SparsePcm.Admit.{validate_index}

-- `intervals[intervals.length - 1]` joined with the next interval where they touch: `before` is the
-- list behind its last element, in reverse.
unfoldable pub push_interval : List Interval → Interval → List Interval
push_interval [] i = i ∷ []
push_interval (previous ∷ before) i =
    if previous.start_frame + previous.frames == i.start_frame
    then record previous { frames = previous.frames + i.frames } ∷ before
    else i ∷ previous ∷ before

-- The loop, with the intervals so far in reverse, and `activeBytes`.
unfoldable pub derive_intervals :
    ℕ → List Interval → ℕ → List StemInterval → Result (List Interval × ℕ)
unfolding push_interval
derive_intervals frame_bytes merged active [] = ok (merged, active)
derive_intervals frame_bytes merged active (i ∷ is) = do
  require (is_safe (i.frames * frame_bytes) && is_safe (active + i.frames * frame_bytes)) corrupt
  require (is_safe (i.packed_frame_offset * frame_bytes)) corrupt
  derive_intervals frame_bytes
      (push_interval merged (record {
        start_frame = i.start_frame;
        frames = i.frames;
        byte_offset = i.packed_frame_offset * frame_bytes;
      }))
      (active + i.frames * frame_bytes) is

abbrev reversed : List Interval → List Interval → List Interval
reversed [] merged = merged
reversed (i ∷ is) merged = reversed is (i ∷ merged)

abbrev draft_interval : Interval → Value
draft_interval i = object (
    field (codes "startFrame") (number i.start_frame) (
      field (codes "frames") (number i.frames)
        (field (codes "byteOffset") (number i.byte_offset) end)))

-- The argument of `validateSparsePcmIndex`.
unfoldable pub draft_index : Manifest → List Interval → Value
unfolding items_of
draft_index m intervals = object (
    field (codes "format") (text (codes "miso_sparse_pcm_v1")) (
      field (codes "identity") (text m.identity) (
        field (codes "sampleRateHz") (number m.sample_rate_hz) (
          field (codes "channels") (number m.channels) (
            field (codes "bitDepth") (number m.bit_depth) (
              field (codes "frames") (number m.frames) (
                field (codes "intervals") (array (items_of (map draft_interval intervals)))
                  end)))))))

-- `PackedSize`: a blob or a buffer of a size, or a number.
pub data PackedSize : Type 0 where
  sized : ℕ → PackedSize
  numbered : Value → PackedSize

-- `packedSize`.
unfoldable pub packed_size : PackedSize → Result ℕ
unfolding integer
packed_size (sized n) = ok n
packed_size (numbered v) = integer v 0

-- `deriveSparsePcmIndex`; the sizes it returns beside the index are fields of the index.
unfoldable pub derive_index : Value → PackedSize → Result Index
unfolding validate_manifest derive_intervals packed_size draft_index validate_index
derive_index source packed = do
  m ← validate_manifest source none
  let frame_bytes = bytes_per_frame m.channels m.bit_depth
  require (is_safe (m.frames * frame_bytes)) corrupt
  (merged, active) ← derive_intervals frame_bytes [] 0 m.intervals
  actual ← packed_size packed
  require (actual == active) corrupt
  validate_index (draft_index m (reversed merged [])) (some actual)
