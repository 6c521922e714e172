-- ===== src/SparseFormat/Shape.antt =====
-- What a well-formed manifest is, said without the validator: intervals that are apart and in
-- order, packed one behind the other, and chunks that cover the same packed frames.
use engine_web_adapter.Prelude.{
  ℕ, ◌+◌, ◌*◌, ◌≤◌, ◌≡◌, ◌⊎◌, true, List, [], ◌∷◌, Option, none, some, Text, length,
}
use engine_web_adapter.Errors.{ok}
use engine_web_adapter.Json.{max_safe}
use engine_web_adapter.Identity.{is_digest, is_stem_identity}
use engine_web_adapter.SparseFormat.{
  Interval, Chunk, Manifest, bytes_per_frame, max_intervals, max_chunks, max_chunk_bytes,
  max_index_bytes, max_object_bytes, header_bytes,
}
use engine_web_adapter.SparseFormat.Encode.{canonical_bytes}

-- Intervals that start at frame `earliest` or later, leave a gap between each other, end by
-- `frames`, and whose packed frames run from `packed` to `packed_end` without a gap.
abbrev pub IntervalsFit : ℕ → ℕ → ℕ → ℕ → List Interval → Type 0
IntervalsFit frames packed_end earliest packed [] = packed ≡ packed_end
IntervalsFit frames packed_end earliest packed (i ∷ is) =
    (earliest ≤ i.start_frame)
    × (1 ≤ i.frames)
    × (i.start_frame + i.frames ≤ frames)
    × (i.packed_frame_offset ≡ packed)
    × IntervalsFit frames packed_end (i.start_frame + i.frames + 1) (packed + i.frames) is

abbrev pub ChunkFits : ℕ → Chunk → Type 0
ChunkFits max_frames c =
    (1 ≤ c.bytes)
    × (c.bytes ≤ max_chunk_bytes)
    × (1 ≤ c.frames)
    × (c.frames ≤ max_frames)
    × (is_digest c.flac_sha256 ≡ true)
    × (is_digest c.pcm_sha256 ≡ true)

-- Chunks whose frames run from `frame` to `frame_end` and whose bytes run from `offset` to
-- `offset_end`, both without a gap.
abbrev pub ChunksFit : ℕ → ℕ → ℕ → ℕ → ℕ → List Chunk → Type 0
ChunksFit max_frames frame_end offset_end frame offset [] =
    (frame ≡ frame_end) × (offset ≡ offset_end)
ChunksFit max_frames frame_end offset_end frame offset (c ∷ cs) =
    ChunkFits max_frames c
    × (c.packed_start_frame ≡ frame)
    × (c.offset ≡ offset)
    × ChunksFit max_frames frame_end offset_end (frame + c.frames) (offset + c.bytes) cs

-- A known payload has the length that the chunks add up to.
abbrev pub PayloadFits : Option ℕ → ℕ → Type 0
PayloadFits none bytes = Unit {0}
PayloadFits (some n) bytes = n ≡ bytes

-- `packed_frames` and `payload_bytes` are the frames and the bytes that the chunks add up to.
pub record IsWellFormed (m : Manifest) (packed_frames payload_bytes : ℕ) (encoded : Text)
    : Type 0 where
  pub identified : is_stem_identity m.identity ≡ true
  pub rate :
      (m.sample_rate_hz ≡ 44100)
      ⊎ (m.sample_rate_hz ≡ 48000)
      ⊎ (m.sample_rate_hz ≡ 88200)
      ⊎ (m.sample_rate_hz ≡ 96000)
  pub channel_count : (m.channels ≡ 1) ⊎ (m.channels ≡ 2)
  pub depth : (m.bit_depth ≡ 16) ⊎ (m.bit_depth ≡ 24)
  pub frames_pos : 1 ≤ m.frames
  pub canonical_safe : m.frames * bytes_per_frame m.channels m.bit_depth ≤ max_safe
  pub interval_count : length m.intervals ≤ max_intervals
  pub chunk_count : length m.chunks ≤ max_chunks
  pub intervals_fit : IntervalsFit m.frames packed_frames 0 0 m.intervals
  pub chunks_fit : ChunksFit (m.sample_rate_hz * 30) packed_frames payload_bytes 0 0 m.chunks
  pub encoding : canonical_bytes m ≡ ok encoded
  pub encoded_pos : 1 ≤ length encoded
  pub encoded_bound : length encoded ≤ max_index_bytes
  pub object_bound : header_bytes + length encoded + payload_bytes ≤ max_object_bytes
