-- ===== src/SparseFormat/Loops.antt =====
-- The two loops of `validateManifest`, in sparse-format.ts.
use engine_web_adapter.Prelude.{ℕ, ◌+◌, leb, ◌==◌, List, [], ◌∷◌, Text, codes}
use engine_web_adapter.Errors.{Result, ok, require, ◌>>=◌, ◌>>◌}
use engine_web_adapter.Json.{Value, Fields, property, integer}
use engine_web_adapter.SparseFormat.{
  Interval, Chunk, corrupt, exact_object, digest, check_sum, max_chunk_bytes,
}

-- The keys of the three objects, as `exactObject` is given them.
abbrev pub interval_keys : List Text
interval_keys = codes "frames" ∷ codes "packedFrameOffset" ∷ codes "startFrame" ∷ []

abbrev pub chunk_keys : List Text
chunk_keys =
    codes "bytes"
    ∷ codes "flacSha256"
    ∷ codes "frames"
    ∷ codes "offset"
    ∷ codes "packedStartFrame"
    ∷ codes "pcmSha256"
    ∷ []

abbrev pub manifest_keys : List Text
manifest_keys =
    codes "bitDepth"
    ∷ codes "channels"
    ∷ codes "chunks"
    ∷ codes "format"
    ∷ codes "frames"
    ∷ codes "identity"
    ∷ codes "intervals"
    ∷ codes "sampleRateHz"
    ∷ []

-- The body of the loop over the intervals. `earliest` is `previousTimelineEnd + 1`, which starts
-- at 0, and `expected` is `expectedPackedFrameOffset`.
unfoldable pub validate_interval : ℕ → ℕ → ℕ → Value → Result Interval
unfolding exact_object integer check_sum
validate_interval frames earliest expected value = do
  raw ← exact_object value interval_keys
  start ← integer (property (codes "startFrame") raw) 0
  count ← integer (property (codes "frames") raw) 1
  packed ← integer (property (codes "packedFrameOffset") raw) 0
  stop ← check_sum start count
  require (leb stop frames) corrupt
  require (leb earliest start) corrupt
  require (packed == expected) corrupt
  next ← check_sum expected count
  ok (record { start_frame = start; frames = count; packed_frame_offset = packed })

-- The loop returns the intervals and the final `expectedPackedFrameOffset`.
unfoldable pub validate_intervals : ℕ → ℕ → ℕ → List Value → Result (List Interval × ℕ)
unfolding validate_interval
validate_intervals frames earliest expected [] = ok ([], expected)
validate_intervals frames earliest expected (v ∷ vs) =
    validate_interval frames earliest expected v >>= λ i.
    validate_intervals frames (i.start_frame + i.frames + 1) (expected + i.frames) vs >>= λ rest.
    ok (i ∷ rest.0, rest.1)

-- The comparisons of the loop over the chunks, once the fields are read.
unfoldable pub check_chunk : ℕ → ℕ → ℕ → ℕ → ℕ → ℕ → ℕ → Result (Unit {0})
unfolding check_sum
check_chunk max_frames expected_frame expected_offset offset bytes frames packed = do
  require (leb bytes max_chunk_bytes) corrupt
  require (leb frames max_frames) corrupt
  require (packed == expected_frame) corrupt
  require (offset == expected_offset) corrupt
  next_frame ← check_sum expected_frame frames
  next_offset ← check_sum expected_offset bytes
  ok tt

-- The two digests, and the chunk that is pushed.
unfoldable pub finish_chunk : Fields → ℕ → ℕ → ℕ → ℕ → Result Chunk
unfolding digest
finish_chunk raw offset bytes frames packed = do
  flac ← digest (property (codes "flacSha256") raw)
  pcm ← digest (property (codes "pcmSha256") raw)
  ok (record {
    offset = offset;
    bytes = bytes;
    frames = frames;
    packed_start_frame = packed;
    flac_sha256 = flac;
    pcm_sha256 = pcm;
  })

-- The body of the loop over the chunks, behind its `exactObject`.
unfoldable pub read_chunk : ℕ → ℕ → ℕ → Fields → Result Chunk
unfolding integer check_chunk finish_chunk
read_chunk max_frames expected_frame expected_offset raw = do
  offset ← integer (property (codes "offset") raw) 0
  bytes ← integer (property (codes "bytes") raw) 1
  frames ← integer (property (codes "frames") raw) 1
  packed ← integer (property (codes "packedStartFrame") raw) 0
  check_chunk max_frames expected_frame expected_offset offset bytes frames packed
  finish_chunk raw offset bytes frames packed

-- The body of the loop over the chunks.
unfoldable pub validate_chunk : ℕ → ℕ → ℕ → Value → Result Chunk
unfolding exact_object read_chunk
validate_chunk max_frames expected_frame expected_offset value =
    exact_object value chunk_keys >>= λ raw.
    read_chunk max_frames expected_frame expected_offset raw

-- The loop returns the chunks, the final `expectedChunkFrame` and the final `expectedChunkOffset`.
unfoldable pub validate_chunks : ℕ → ℕ → ℕ → List Value → Result (List Chunk × ℕ × ℕ)
unfolding validate_chunk
validate_chunks max_frames expected_frame expected_offset [] =
    ok ([], expected_frame, expected_offset)
validate_chunks max_frames expected_frame expected_offset (v ∷ vs) =
    validate_chunk max_frames expected_frame expected_offset v >>= λ c.
    validate_chunks max_frames (expected_frame + c.frames) (expected_offset + c.bytes) vs
    >>= λ rest. ok (c ∷ rest.0, rest.1, rest.2)
