-- ===== src/FlacStreamInfo/Shape.antt =====
-- What a parsed STREAMINFO guarantees.
use engine_web_adapter.Prelude.{◌*◌, ◌/◌, ◌^◌, ◌≤◌, ◌<◌, ◌≡◌, ◌⊎◌, Option, none, some}
use engine_web_adapter.FlacStreamInfo.{StreamInfo, Expectation}

-- The declared source, where there is one, and the stream agree; a known count of samples is the
-- declared one and makes up the declared canonical bytes.
abbrev pub Agrees : Option Expectation → StreamInfo → Type 0
Agrees none i = Unit {0}
Agrees (some e) i =
    (i.sample_rate_hz ≡ e.sample_rate_hz)
    × (i.channels ≡ e.channels)
    × (i.bit_depth ≡ e.bit_depth)
    × ((i.total_samples ≡ 0)
        ⊎ ((i.total_samples ≡ e.frames)
            × (e.frames * e.channels * (e.bit_depth / 8) ≡ e.canonical_bytes)))

pub record IsUsable (expected : Option Expectation) (i : StreamInfo) : Type 0 where
  pub rate :
      (i.sample_rate_hz ≡ 44100)
      ⊎ (i.sample_rate_hz ≡ 48000)
      ⊎ (i.sample_rate_hz ≡ 88200)
      ⊎ (i.sample_rate_hz ≡ 96000)
  pub channel_count : (i.channels ≡ 1) ⊎ (i.channels ≡ 2)
  pub depth : (i.bit_depth ≡ 16) ⊎ (i.bit_depth ≡ 24)
  pub samples : i.total_samples < 2 ^ 36
  pub blocks : (16 ≤ i.minimum_block_samples) × (i.minimum_block_samples ≤ i.maximum_block_samples)
  pub agrees : Agrees expected i
