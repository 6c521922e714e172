-- ===== src/SparseFormat.antt =====
-- src/stems/sparse-format.ts: the sparse stem package, a 16-byte header, a canonical JSON manifest
-- and a payload of FLAC chunks. Every refusal of this file is `stem.corrupt`; a text that is no
-- digest or identity is refused in the same way.
mod Loops
pub mod Encode
pub mod Validate
pub mod Shape
pub mod Sound
pub mod Accept
mod Package
mod Reread
mod PackageTests
mod Binding
mod Tests
use engine_web_adapter.Prelude.{
  ℕ, ◌+◌, ◌*◌, ◌/◌, Bool, true, false, ◌&&◌, ◌||◌, if◌then◌else◌, leb, ltb, ◌==◌, List, [], ◌∷◌,
  Option, none, some, map, Text, text_eq, codes, length,
}
use engine_web_adapter.Errors.{
  stem_corrupt, Failure, failure, Result, ok, err, require, ◌>>=◌, ◌>>◌,
}
use engine_web_adapter.Json.{
  Value, null, undefined, other_number, foreign, boolean, number, text, array, object, Items, nil,
  cons, Fields, end, field, items, keys, property, as_record, integer, is_safe,
}
use engine_web_adapter.CanonicalJson.{canonical_json, sort_by}
use engine_web_adapter.Identity.{is_digest, is_stem_identity}

abbrev pub header_bytes : ℕ
header_bytes = 16

abbrev pub max_index_bytes : ℕ
max_index_bytes = 8 * 1024 * 1024

abbrev pub max_intervals : ℕ
max_intervals = 65536

abbrev pub max_chunks : ℕ
max_chunks = 65536

abbrev pub max_chunk_bytes : ℕ
max_chunk_bytes = 32 * 1024 * 1024

abbrev pub max_object_bytes : ℕ
max_object_bytes = 8 * 1024 * 1024 * 1024

-- `SparseStemInterval`, `SparseStemChunk` and `SparseStemManifest` without its format tag.
pub record Interval : Type 0 where
  pub start_frame : ℕ
  pub frames : ℕ
  pub packed_frame_offset : ℕ

pub record Chunk : Type 0 where
  pub offset : ℕ
  pub bytes : ℕ
  pub frames : ℕ
  pub packed_start_frame : ℕ
  pub flac_sha256 : Text
  pub pcm_sha256 : Text

pub record Manifest : Type 0 where
  pub identity : Text
  pub sample_rate_hz : ℕ
  pub channels : ℕ
  pub bit_depth : ℕ
  pub frames : ℕ
  pub intervals : List Interval
  pub chunks : List Chunk

abbrev pub corrupt : Failure
corrupt = failure stem_corrupt

unfoldable pub same_keys : List Text → List Text → Bool
same_keys [] [] = true
same_keys (k ∷ ks) (j ∷ js) = text_eq k j && same_keys ks js
same_keys _ _ = false

-- `exactObject`: the keys are the expected ones, in any order.
unfoldable pub exact_object : Value → List Text → Result Fields
unfolding as_record same_keys sort_by
exact_object v expected = do
  fs ← as_record v
  require (length (keys fs) == length expected) corrupt
  require (same_keys (sort_by (λ k. k) (keys fs)) (sort_by (λ k. k) expected)) corrupt
  ok fs

unfoldable pub as_text : (Text → Bool) → Value → Result Text
as_text test (text t) = if test t then ok t else err corrupt
as_text test null = err corrupt
as_text test _ = err corrupt

-- `digest` and `identity`.
unfoldable pub digest : Value → Result Text
unfolding as_text is_digest
digest v = as_text is_digest v

unfoldable pub identity_of : Value → Result Text
unfolding as_text is_stem_identity
identity_of v = as_text is_stem_identity v

abbrev pub bytes_per_frame : ℕ → ℕ → ℕ
bytes_per_frame channels bit_depth = channels * (bit_depth / 8)

-- `checkSum` and `checkProduct`. A sum or product of safe integers that is not safe stays unsafe
-- when a double rounds it, so the exact number gives the same answer.
unfoldable pub check_sum : ℕ → ℕ → Result ℕ
check_sum left right = if is_safe (left + right) then ok (left + right) else err corrupt

unfoldable pub check_product : ℕ → ℕ → Result ℕ
check_product left right = if is_safe (left * right) then ok (left * right) else err corrupt

unfoldable pub check_object_limit : ℕ → ℕ → Result (Unit {0})
unfolding check_sum
check_object_limit manifest_bytes payload_bytes = do
  header_and_manifest ← check_sum header_bytes manifest_bytes
  object_bytes ← check_sum header_and_manifest payload_bytes
  require (leb object_bytes max_object_bytes) corrupt

-- `preflightArray`.
unfoldable pub preflight_array : Value → ℕ → Result (List Value)
preflight_array (array vs) maximum =
    if leb (length (items vs)) maximum then ok (items vs) else err corrupt
preflight_array null maximum = err corrupt
preflight_array _ maximum = err corrupt
