-- ===== src/Identity/Bytes.antt =====
-- src/stems/identity.ts: when a declared source has a byte count, and which one.
use engine_web_adapter.Prelude.{ℕ, ◌*◌, ◌≤◌, ◌≡◌, ◌↔◌, true, arith}
use engine_web_adapter.Errors.{ok}
use engine_web_adapter.Json.{max_safe}
use engine_web_adapter.Identity.{
  BitDepth, int16, int24, float32, SourceSpec, is_stem_identity, assert_stem_identity,
  counted_bytes, by_depth, canonical_pcm_bytes,
}

-- Bytes of one integer sample; a float source has no canonical size.
abbrev pub sample_width : BitDepth → ℕ
sample_width int16 = 2
sample_width int24 = 3
sample_width float32 = 0

abbrev pub Counts : BitDepth → SourceSpec → ℕ → Type 0
Counts depth spec n =
    (1 ≤ sample_width depth)
    × (1 ≤ spec.frames)
    × (is_stem_identity spec.content ≡ true)
    × (n ≡ spec.frames * spec.channels * sample_width depth)
    × (n ≤ max_safe)

counted_bytes_iff :
    (spec : SourceSpec) (w n : ℕ)
    → (counted_bytes spec w ≡ ok n) ↔ (
        (1 ≤ spec.frames)
        × (is_stem_identity spec.content ≡ true)
        × (n ≡ spec.frames * spec.channels * w)
        × (n ≤ max_safe))
unfolding counted_bytes assert_stem_identity
counted_bytes_iff spec w n = (λ e. ground arith, λ c. ground arith)

by_depth_iff :
    (depth : BitDepth) (spec : SourceSpec) (n : ℕ)
    → (by_depth depth spec ≡ ok n) ↔ Counts depth spec n
unfolding by_depth
by_depth_iff int16 spec n = (
  λ e. let (a, b, c, d) = (counted_bytes_iff spec 2 n).0 e in (omega arith, a, b, c, d),
  λ c. (counted_bytes_iff spec 2 n).1 (c.1, c.2, c.3, c.4),
)
by_depth_iff int24 spec n = (
  λ e. let (a, b, c, d) = (counted_bytes_iff spec 3 n).0 e in (omega arith, a, b, c, d),
  λ c. (counted_bytes_iff spec 3 n).1 (c.1, c.2, c.3, c.4),
)
by_depth_iff float32 spec n = (λ e. absurd (cc), λ c. absurd (omega (arith, c.0)))

-- A source has the byte count `n` just when its samples are integers, it has a frame, its content is
-- a stem identity, and `n` is frames times channels times bytes per sample and a safe integer.
pub canonical_pcm_bytes_iff :
    (spec : SourceSpec) (n : ℕ) → (canonical_pcm_bytes spec ≡ ok n) ↔ Counts spec.bit_depth spec n
unfolding canonical_pcm_bytes
canonical_pcm_bytes_iff spec n = by_depth_iff spec.bit_depth spec n
