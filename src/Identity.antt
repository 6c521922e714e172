-- ===== src/Identity.antt =====
-- src/stems/identity.ts: the content digest that names a stem, and the byte count that a source
-- declares.
mod Bytes
mod Tests
use engine_web_adapter.Prelude.{
  ℕ, ◌*◌, Bool, true, ◌&&◌, ◌||◌, leb, ltb, ◌==◌, [], ◌∷◌, Text, text_eq, codes, length, take, drop,
}
use engine_web_adapter.Errors.{stem_invalid_declaration, failure, Result, ok, err, require, ◌>>◌}
use engine_web_adapter.Json.{max_safe}

-- `[0-9a-f]`.
abbrev pub is_hex : ℕ → Bool
is_hex c = (leb b'0' c && leb c b'9') || (leb b'a' c && leb c b'f')

pub all_hex : Text → Bool
all_hex [] = true
all_hex (c ∷ t) = is_hex c && all_hex t

-- `/^[0-9a-f]{64}$/u`.
unfoldable pub is_digest : Text → Bool
unfolding all_hex
is_digest t = (length t == 64) && all_hex t

-- `/^blake3:[0-9a-f]{64}$/u`.
unfoldable pub is_stem_identity : Text → Bool
unfolding is_digest
is_stem_identity t = text_eq (take 7 t) (codes "blake3:") && is_digest (drop 7 t)

-- `assertStemIdentity`.
unfoldable pub assert_stem_identity : Text → Result (Unit {0})
unfolding is_stem_identity
assert_stem_identity t = require (is_stem_identity t) (failure stem_invalid_declaration)

-- `SourceSpec["bitDepth"]`; the Engine's float sources are the third.
pub data BitDepth : Type 0 where
  int16 int24 float32 : BitDepth

-- What `canonicalPcmBytes` reads of a source. A frame count is a bigint or an integer number.
pub record SourceSpec : Type 0 where
  pub content : Text
  pub channels : ℕ
  pub bit_depth : BitDepth
  pub frames : ℕ

counted_bytes : SourceSpec → ℕ → Result ℕ
unfolding assert_stem_identity
counted_bytes spec sample_bytes = do
  require (ltb 0 spec.frames) (failure stem_invalid_declaration)
  assert_stem_identity spec.content
  require (leb (spec.frames * spec.channels * sample_bytes) max_safe)
      (failure stem_invalid_declaration)
  ok (spec.frames * spec.channels * sample_bytes)

by_depth : BitDepth → SourceSpec → Result ℕ
unfolding counted_bytes
by_depth float32 spec = err (failure stem_invalid_declaration)
by_depth int16 spec = counted_bytes spec 2
by_depth int24 spec = counted_bytes spec 3

-- `canonicalPcmBytes`.
unfoldable pub canonical_pcm_bytes : SourceSpec → Result ℕ
unfolding by_depth
canonical_pcm_bytes spec = by_depth spec.bit_depth spec
