-- ===== src/Identity/Tests.antt =====
-- The byte count of one source.
use engine_web_adapter.Prelude.{◌≡◌, ◌↔◌, refl, ◌++◌, codes, replicate}
use engine_web_adapter.Errors.{ok}
use engine_web_adapter.Identity.{SourceSpec, int24, canonical_pcm_bytes}
use engine_web_adapter.Identity.Bytes.{Counts, canonical_pcm_bytes_iff}

abbrev stereo : SourceSpec
stereo = record {
  content = codes "blake3:" ++ replicate 64 b'0';
  channels = 2;
  bit_depth = int24;
  frames = 100;
}

stereo_bytes : canonical_pcm_bytes stereo ≡ ok 600
unfolding canonical_pcm_bytes
stereo_bytes = refl

canonical_pcm_bytes_iff_example : (canonical_pcm_bytes stereo ≡ ok 600) ↔ Counts int24 stereo 600
canonical_pcm_bytes_iff_example = canonical_pcm_bytes_iff stereo 600
