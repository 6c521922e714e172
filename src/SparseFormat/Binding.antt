-- ===== src/SparseFormat/Binding.antt =====
-- src/stems/sparse-format.ts: `assertSparseStemSessionBinding`.
use engine_web_adapter.Prelude.{
  ℕ, ◌≡◌, Bool, true, false, ◌&&◌, ◌==◌, Option, none, some, Text, text_eq,
}
use engine_web_adapter.Errors.{
  stem_invalid_declaration, failure, Result, ok, err, require, ◌>>=◌, ◌>>◌,
}
use engine_web_adapter.Json.{Value, null, number, is_safe}
use engine_web_adapter.Identity.{
  BitDepth, int16, int24, float32, is_stem_identity, assert_stem_identity,
}
use engine_web_adapter.SparseFormat.{Manifest}
use engine_web_adapter.SparseFormat.Validate.{validate_manifest}
use engine_web_adapter.SparseFormat.Accept.{Accepted}

-- `number | bigint`; the bigints of a session are not negative.
pub data FrameCount : Type 0 where
  bigint_frames : ℕ → FrameCount
  number_frames : Value → FrameCount

-- `SparseSessionSourceShape`.
pub record Shape : Type 0 where
  pub identity : Text
  pub sample_rate_hz : ℕ
  pub channels : ℕ
  pub bit_depth : ℕ
  pub frames : FrameCount

-- `SparseSessionSourceExpectation`, and a value that is no object.
pub data SourceExpectation : Type 0 where
  no_object : SourceExpectation
  plain_shape : Shape → SourceExpectation
  declared_source :
      (rate : ℕ) (content : Text) (channels : ℕ) → BitDepth → FrameCount → SourceExpectation

abbrev pub declared_depth : BitDepth → Option ℕ
declared_depth int16 = some 16
declared_depth int24 = some 24
declared_depth float32 = none

unfoldable pub declared_shape : ℕ → Text → ℕ → FrameCount → Option ℕ → Result Shape
unfolding assert_stem_identity
declared_shape rate content channels frames none = err (failure stem_invalid_declaration)
declared_shape rate content channels frames (some depth) = do
  assert_stem_identity content
  ok (record {
    identity = content;
    sample_rate_hz = rate;
    channels = channels;
    bit_depth = depth;
    frames = frames;
  })

-- `expectationShape`.
unfoldable pub expectation_shape : SourceExpectation → Result Shape
unfolding declared_shape
expectation_shape no_object = err (failure stem_invalid_declaration)
expectation_shape (plain_shape s) = ok s
expectation_shape (declared_source rate content channels depth frames) =
    declared_shape rate content channels frames (declared_depth depth)

-- `sameFrames`.
unfoldable pub same_frames : ℕ → FrameCount → Bool
same_frames actual (bigint_frames n) = actual == n
same_frames actual (number_frames (number n)) = is_safe n && (actual == n)
same_frames actual (number_frames null) = false
same_frames actual (number_frames _) = false

abbrev pub agrees : Manifest → Shape → Bool
agrees m s =
    text_eq m.identity s.identity
    && ((m.sample_rate_hz == s.sample_rate_hz)
        && ((m.channels == s.channels)
            && ((m.bit_depth == s.bit_depth) && same_frames m.frames s.frames)))

-- `assertSparseStemSessionBinding`, on the manifest that a parsed package holds or on one given.
unfoldable pub assert_binding : Value → SourceExpectation → Result (Unit {0})
unfolding validate_manifest expectation_shape assert_stem_identity
assert_binding candidate expected = do
  manifest ← validate_manifest candidate none
  shape ← expectation_shape expected
  assert_stem_identity shape.identity
  require (agrees manifest shape) (failure stem_invalid_declaration)

-- The frame count that an expectation names.
abbrev pub Names : FrameCount → ℕ → Type 0
Names (bigint_frames m) n = n ≡ m
Names (number_frames v) n = v ≡ number n

pub record IsBound (m : Manifest) (s : Shape) : Type 0 where
  pub accepted : Accepted none m
  pub identified : is_stem_identity s.identity ≡ true
  pub identity : m.identity ≡ s.identity
  pub rate : m.sample_rate_hz ≡ s.sample_rate_hz
  pub channels : m.channels ≡ s.channels
  pub depth : m.bit_depth ≡ s.bit_depth
  pub frames : Names s.frames m.frames
