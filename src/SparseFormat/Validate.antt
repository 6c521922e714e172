-- ===== src/SparseFormat/Validate.antt =====
-- `validateManifest` and the functions that it serves, in sparse-format.ts.
use engine_web_adapter.Prelude.{
  ℕ, Bool, false, ◌||◌, leb, ◌==◌, List, Option, none, some, Text, text_eq, codes, length,
}
use engine_web_adapter.Errors.{Result, ok, require, ◌>>=◌, ◌>>◌}
use engine_web_adapter.Json.{Value, number, text, null, Fields, property, integer}
use engine_web_adapter.SparseFormat.{
  Interval, Chunk, Manifest, corrupt, exact_object, identity_of, check_product, check_object_limit,
  preflight_array, bytes_per_frame, max_intervals, max_chunks, max_index_bytes,
}
use engine_web_adapter.SparseFormat.Loops.{manifest_keys, validate_intervals, validate_chunks}
use engine_web_adapter.SparseFormat.Encode.{canonical_bytes}

abbrev pub known_rate : ℕ → Bool
known_rate r = (r == 44100) || ((r == 48000) || ((r == 88200) || (r == 96000)))

abbrev pub known_channels : ℕ → Bool
known_channels c = (c == 1) || (c == 2)

abbrev pub known_depth : ℕ → Bool
known_depth d = (d == 16) || (d == 24)

pub is_format : Value → Bool
is_format (text t) = text_eq t (codes "miso_sparse_stem_v1")
is_format null = false
is_format _ = false

-- The scalar fields, down to the identity, with the two arrays as they were received.
pub record Scalars : Type 0 where
  pub identity : Text
  pub sample_rate_hz : ℕ
  pub channels : ℕ
  pub bit_depth : ℕ
  pub frames : ℕ
  pub intervals_raw : List Value
  pub chunks_raw : List Value

unfoldable pub validate_scalars : Fields → Result Scalars
unfolding is_format preflight_array integer check_product identity_of
validate_scalars root = do
  require (is_format (property (codes "format") root)) corrupt
  intervals_raw ← preflight_array (property (codes "intervals") root) max_intervals
  chunks_raw ← preflight_array (property (codes "chunks") root) max_chunks
  sample_rate_hz ← integer (property (codes "sampleRateHz") root) 1
  require (known_rate sample_rate_hz) corrupt
  channels ← integer (property (codes "channels") root) 1
  require (known_channels channels) corrupt
  bit_depth ← integer (property (codes "bitDepth") root) 1
  require (known_depth bit_depth) corrupt
  frames ← integer (property (codes "frames") root) 1
  canonical ← check_product frames (bytes_per_frame channels bit_depth)
  identity ← identity_of (property (codes "identity") root)
  ok (record {
    identity = identity;
    sample_rate_hz = sample_rate_hz;
    channels = channels;
    bit_depth = bit_depth;
    frames = frames;
    intervals_raw = intervals_raw;
    chunks_raw = chunks_raw;
  })

-- The two sides of `payloadBytes !== undefined`.
unfoldable pub check_payload : Option ℕ → ℕ → Result (Unit {0})
unfolding integer
check_payload none final = ok tt
check_payload (some payload_bytes) final = do
  bytes ← integer (number payload_bytes) 0
  require (bytes == final) corrupt

unfoldable pub payload_or : Option ℕ → ℕ → ℕ
payload_or none final = final
payload_or (some payload_bytes) final = payload_bytes

-- The size of the encoding, and of the whole object.
unfoldable pub check_size : Manifest → ℕ → Result (Unit {0})
unfolding canonical_bytes check_object_limit
check_size m payload_bytes = do
  encoded ← canonical_bytes m
  require (leb 1 (length encoded)) corrupt
  require (leb (length encoded) max_index_bytes) corrupt
  check_object_limit (length encoded) payload_bytes

unfoldable pub assemble : Scalars → List Interval → List Chunk → Manifest
assemble s intervals chunks = record {
  identity = s.identity;
  sample_rate_hz = s.sample_rate_hz;
  channels = s.channels;
  bit_depth = s.bit_depth;
  frames = s.frames;
  intervals = intervals;
  chunks = chunks;
}

-- `validateManifest(value, payloadBytes)`, which is also `validateSparseStemManifest`.
unfoldable pub validate_manifest : Value → Option ℕ → Result Manifest
unfolding exact_object validate_scalars check_product validate_intervals validate_chunks
    check_payload payload_or check_size assemble
validate_manifest value payload = do
  root ← exact_object value manifest_keys
  s ← validate_scalars root
  (intervals, packed_frames) ← validate_intervals s.frames 0 0 s.intervals_raw
  max_frames ← check_product s.sample_rate_hz 30
  (chunks, chunk_frames, chunk_bytes) ← validate_chunks max_frames 0 0 s.chunks_raw
  require (chunk_frames == packed_frames) corrupt
  check_payload payload chunk_bytes
  check_size (assemble s intervals chunks) (payload_or payload chunk_bytes)
  ok (assemble s intervals chunks)
