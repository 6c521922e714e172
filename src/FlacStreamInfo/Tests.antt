-- ===== src/FlacStreamInfo/Tests.antt =====
-- The probe of a 44.1 kHz stereo stream of 16 bits with 1000 samples, and one of a reserved kind.
use engine_web_adapter.Prelude.{ℕ, ◌≡◌, refl, List, [], ◌∷◌, ◌++◌, none, some, replicate, set_at}
use engine_web_adapter.Errors.{err}
use engine_web_adapter.FlacStreamInfo.{StreamInfo, Expectation, parse_stream_info, invalid, shape}

abbrev head : List ℕ
head = 102 ∷ 76 ∷ 97 ∷ 67 ∷ 0 ∷ 0 ∷ 0 ∷ 34 ∷ 16 ∷ 0 ∷ 16 ∷ 0 ∷ 0 ∷ 0 ∷ 14 ∷ 0 ∷ 16 ∷ 0 ∷ []

-- 44100 is 10, 196 and 4 in 20 bits; then 001 for two channels, 01111 for 16 bits, and 36 bits.
abbrev stream_kind : List ℕ
stream_kind = 10 ∷ 196 ∷ 66 ∷ 240 ∷ 0 ∷ 0 ∷ 3 ∷ 232 ∷ []

abbrev probe : List ℕ
probe = head ++ stream_kind ++ replicate 16 7

abbrev declared : Expectation
declared = record {
  sample_rate_hz = 44100;
  channels = 2;
  bit_depth = 16;
  frames = 1000;
  canonical_bytes = 4000;
}

abbrev information : StreamInfo
information = record {
  sample_rate_hz = 44100;
  channels = 2;
  bit_depth = 16;
  total_samples = 1000;
  minimum_block_samples = 4096;
  maximum_block_samples = 4096;
  minimum_frame_bytes = 14;
  maximum_frame_bytes = 4096;
  stream_md5 = replicate 16 7;
  decoder_description = set_at probe 4 (128 ∷ []);
}

longer_source_refused :
    parse_stream_info probe (some (record declared { frames = 1001 })) ≡ err shape
unfolding parse_stream_info
longer_source_refused = refl

no_magic_refused : parse_stream_info (replicate 42 0) none ≡ err invalid
unfolding parse_stream_info
no_magic_refused = refl
