-- ===== src/SparseFormat/Encode.antt =====
-- The manifest as the plain object that the code builds, and its canonical encoding.
use engine_web_adapter.Prelude.{List, [], ◌∷◌, map, Text, codes}
use engine_web_adapter.Errors.{Result}
use engine_web_adapter.Json.{Value, number, text, array, object, Items, nil, cons, end, field}
use engine_web_adapter.CanonicalJson.{canonical_json}
use engine_web_adapter.SparseFormat.{Interval, Chunk, Manifest}

-- A list as the array that holds it, and the manifest as the plain object that the code builds.
unfoldable pub items_of : List Value → Items
items_of [] = nil
items_of (v ∷ vs) = cons v (items_of vs)

unfoldable pub interval_value : Interval → Value
interval_value i = object (
    field (codes "startFrame") (number i.start_frame) (
      field (codes "frames") (number i.frames)
        (field (codes "packedFrameOffset") (number i.packed_frame_offset) end)))

unfoldable pub chunk_value : Chunk → Value
chunk_value c = object (
    field (codes "offset") (number c.offset) (
      field (codes "bytes") (number c.bytes) (
        field (codes "frames") (number c.frames) (
          field (codes "packedStartFrame") (number c.packed_start_frame) (
            field (codes "flacSha256") (text c.flac_sha256)
              (field (codes "pcmSha256") (text c.pcm_sha256) end))))))

unfoldable pub manifest_value : Manifest → Value
unfolding items_of interval_value chunk_value
manifest_value m = object (
    field (codes "format") (text (codes "miso_sparse_stem_v1")) (
      field (codes "identity") (text m.identity) (
        field (codes "sampleRateHz") (number m.sample_rate_hz) (
          field (codes "channels") (number m.channels) (
            field (codes "bitDepth") (number m.bit_depth) (
              field (codes "frames") (number m.frames) (
                field (codes "intervals") (array (items_of (map interval_value m.intervals)))
                  (field (codes "chunks") (array (items_of (map chunk_value m.chunks))) end))))))))

-- `canonicalBytes`.
unfoldable pub canonical_bytes : Manifest → Result Text
unfolding manifest_value canonical_json
canonical_bytes m = canonical_json (manifest_value m)
