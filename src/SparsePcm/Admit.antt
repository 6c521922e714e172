-- ===== src/SparsePcm/Admit.antt =====
-- `validateSparsePcmIndex`, in sparse-pcm.ts: the only function that admits an index.
use engine_web_adapter.Prelude.{
  ℕ, ◌+◌, ◌-◌, ◌*◌, Bool, true, false, ◌&&◌, ◌||◌, not, leb, ◌==◌, List, [], ◌∷◌, ◌++◌, Option,
  none, some, Text, text_eq, codes, length,
}
use engine_web_adapter.Errors.{Result, ok, require, ◌>>=◌, ◌>>◌}
use engine_web_adapter.Json.{
  Value, Fields, null, undefined, number, text, array, object, nil, end, field, keys, property,
  as_record, integer, is_safe,
}
use engine_web_adapter.CanonicalJson.{decimal, quote}
use engine_web_adapter.SparseFormat.{
  corrupt, preflight_array, max_intervals, max_index_bytes, Manifest,
}
use engine_web_adapter.SparseFormat.Validate.{validate_manifest}
use engine_web_adapter.SparsePcm.{Interval, Index, bytes_per_frame}

abbrev pub pcm_interval_keys : List Text
pcm_interval_keys = codes "byteOffset" ∷ codes "frames" ∷ codes "startFrame" ∷ []

abbrev pub pcm_required_keys : List Text
pcm_required_keys =
    codes "bitDepth"
    ∷ codes "channels"
    ∷ codes "format"
    ∷ codes "frames"
    ∷ codes "identity"
    ∷ codes "intervals"
    ∷ codes "sampleRateHz"
    ∷ []

abbrev pub pcm_index_keys : List Text
pcm_index_keys = codes "activeBytes" ∷ codes "canonicalBytes" ∷ pcm_required_keys

-- `includes`, and `every` of it.
includes : Text → List Text → Bool
includes k [] = false
includes k (j ∷ js) = text_eq j k || includes k js

all_included : List Text → List Text → Bool
unfolding includes
all_included [] among = true
all_included (k ∷ ks) among = includes k among && all_included ks among

-- `exactKeys`.
pub exact_keys : Fields → List Text → List Text → Result (Unit {0})
unfolding all_included
exact_keys fs allowed required =
    require (all_included (keys fs) allowed && all_included required (keys fs)) corrupt

-- `JSON.stringify({ byteOffset, frames, startFrame })`; each of its characters is one byte.
unfoldable pub interval_text : Interval → Text
unfolding decimal
interval_text i =
    codes "{\"byteOffset\":"
    ++ decimal i.byte_offset
    ++ codes ",\"frames\":"
    ++ decimal i.frames
    ++ codes ",\"startFrame\":"
    ++ decimal i.start_frame
    ++ codes "}"

-- The body of the loop over the intervals, at `previousEnd` and `expectedOffset`; `some_before` is
-- `intervals.length > 0`.
unfoldable pub admit_interval : ℕ → ℕ → Bool → ℕ → ℕ → Value → Result Interval
unfolding as_record exact_keys integer
admit_interval frames frame_bytes some_before previous_end expected_offset value = do
  raw ← as_record value
  exact_keys raw pcm_interval_keys pcm_interval_keys
  start ← integer (property (codes "startFrame") raw) 0
  count ← integer (property (codes "frames") raw) 1
  offset ← integer (property (codes "byteOffset") raw) 0
  require (leb previous_end start && leb (start + count) frames) corrupt
  require (not (some_before && (start == previous_end))) corrupt
  require (offset == expected_offset) corrupt
  require (is_safe (offset + count * frame_bytes)) corrupt
  ok (record { start_frame = start; frames = count; byte_offset = offset })

-- The loop, at `intervalMetadataBytes`. It returns the intervals with the final `expectedOffset`
-- and `intervalMetadataBytes`.
unfoldable pub admit_intervals :
    ℕ → ℕ → Bool → ℕ → ℕ → ℕ → List Value → Result (List Interval × ℕ × ℕ)
unfolding admit_interval interval_text
admit_intervals frames frame_bytes some_before previous_end expected_offset metadata [] =
    ok ([], expected_offset, metadata)
admit_intervals frames frame_bytes some_before previous_end expected_offset metadata (v ∷ vs) = do
  i ← admit_interval frames frame_bytes some_before previous_end expected_offset v
  require (leb (metadata + length (interval_text i)) max_index_bytes) corrupt
  rest ←
      admit_intervals frames frame_bytes true (i.start_frame + i.frames)
        (i.byte_offset + i.frames * frame_bytes) (metadata + length (interval_text i)) vs
  ok (i ∷ rest.0, rest.1, rest.2)

-- `value.x !== undefined && value.x !== expected`, negated.
unfoldable pub absent_or : Value → ℕ → Bool
absent_or undefined expected = true
absent_or (number n) expected = n == expected
absent_or null expected = false
absent_or _ expected = false

pub is_pcm_format : Value → Bool
is_pcm_format (text t) = text_eq t (codes "miso_sparse_pcm_v1")
is_pcm_format null = false
is_pcm_format _ = false

-- The manifest without intervals that checks the scalar fields.
unfoldable pub scalar_source : Fields → Value
scalar_source root = object (
    field (codes "format") (text (codes "miso_sparse_stem_v1")) (
      field (codes "identity") (property (codes "identity") root) (
        field (codes "sampleRateHz") (property (codes "sampleRateHz") root) (
          field (codes "channels") (property (codes "channels") root) (
            field (codes "bitDepth") (property (codes "bitDepth") root) (
              field (codes "frames") (property (codes "frames") root) (
                field (codes "intervals") (array nil)
                  (field (codes "chunks") (array nil) end))))))))

-- The encoded size of the index: `prefix`, the intervals with their commas, `suffix`.
unfoldable pub encoded_bytes : Manifest → ℕ → ℕ → ℕ → ℕ → ℕ
unfolding decimal quote
encoded_bytes m active canonical count metadata =
    length (
      codes "{\"activeBytes\":"
      ++ decimal active
      ++ codes ",\"bitDepth\":"
      ++ decimal m.bit_depth
      ++ codes ",\"canonicalBytes\":"
      ++ decimal canonical
      ++ codes ",\"channels\":"
      ++ decimal m.channels
      ++ codes ",\"format\":"
      ++ quote (codes "miso_sparse_pcm_v1")
      ++ codes ",\"frames\":"
      ++ decimal m.frames
      ++ codes ",\"identity\":"
      ++ quote m.identity
      ++ codes ",\"intervals\":[")
    + metadata
    + (count - 1)
    + length (codes "],\"sampleRateHz\":" ++ decimal m.sample_rate_hz ++ codes "}")

-- The packed size that the caller knows, if any.
unfoldable pub packed_fits : Option ℕ → ℕ → Bool
packed_fits none active = true
packed_fits (some size) active = size == active

-- From the admitted scalars and the raw intervals on.
unfoldable pub admit_rest : Fields → Option ℕ → Manifest → List Value → Result Index
unfolding admit_intervals absent_or packed_fits encoded_bytes
admit_rest root packed m raws = do
  require (is_safe (m.frames * bytes_per_frame m.channels m.bit_depth)) corrupt
  (intervals, active, metadata) ←
      admit_intervals m.frames (bytes_per_frame m.channels m.bit_depth) false 0 0 0 raws
  require (absent_or (property (codes "activeBytes") root) active) corrupt
  require
      (absent_or (property (codes "canonicalBytes") root)
        (m.frames * bytes_per_frame m.channels m.bit_depth))
      corrupt
  require (packed_fits packed active) corrupt
  require
      (leb
        (encoded_bytes m active (m.frames * bytes_per_frame m.channels m.bit_depth)
          (length intervals) metadata)
        max_index_bytes)
      corrupt
  ok (record {
    identity = m.identity;
    sample_rate_hz = m.sample_rate_hz;
    channels = m.channels;
    bit_depth = m.bit_depth;
    frames = m.frames;
    intervals = intervals;
    active_bytes = active;
    canonical_bytes = m.frames * bytes_per_frame m.channels m.bit_depth;
  })

unfoldable pub validate_index : Value → Option ℕ → Result Index
unfolding as_record exact_keys is_pcm_format preflight_array scalar_source admit_rest
    validate_manifest
validate_index value packed = do
  root ← as_record value
  exact_keys root pcm_index_keys pcm_required_keys
  require (is_pcm_format (property (codes "format") root)) corrupt
  m ← validate_manifest (scalar_source root) none
  raws ← preflight_array (property (codes "intervals") root) max_intervals
  admit_rest root packed m raws
