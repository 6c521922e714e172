-- ===== src/FlacStreamInfo.antt =====
-- src/stems/native-flac-metadata.ts, `parseNativeFlacStreamInfo`: the first 42 bytes of a native FLAC
-- stream. A byte is a number below 256; a bigint is a number.
mod Shape
mod Tests
use engine_web_adapter.Prelude.{
  ℕ, zero, suc, ◌+◌, ◌*◌, ◌/◌, ◌%◌, ◌^◌, Bool, true, ◌&&◌, ◌||◌, leb, ◌==◌, List, Option, none,
  some, length, get_or, subarray, set_at, [], ◌∷◌,
}
use engine_web_adapter.Errors.{
  stem_flac_invalid, stem_flac_shape, Failure, failure, Result, ok, err, require, ◌>>=◌, ◌>>◌,
}

abbrev pub invalid : Failure
invalid = failure stem_flac_invalid

abbrev pub shape : Failure
shape = failure stem_flac_shape

-- `NativeFlacStreamInfo`.
pub record StreamInfo : Type 0 where
  pub sample_rate_hz : ℕ
  pub channels : ℕ
  pub bit_depth : ℕ
  pub total_samples : ℕ
  pub minimum_block_samples : ℕ
  pub maximum_block_samples : ℕ
  pub minimum_frame_bytes : ℕ
  pub maximum_frame_bytes : ℕ
  pub stream_md5 : List ℕ
  pub decoder_description : List ℕ

-- `CanonicalPcmExpectation`, the fields that are compared.
pub record Expectation : Type 0 where
  pub sample_rate_hz : ℕ
  pub channels : ℕ
  pub bit_depth : ℕ
  pub frames : ℕ
  pub canonical_bytes : ℕ

abbrev pub u16 : List ℕ → ℕ → ℕ
u16 bytes offset = get_or bytes offset 0 * 256 + get_or bytes (offset + 1) 0

abbrev pub u24 : List ℕ → ℕ → ℕ
u24 bytes offset = u16 bytes offset * 256 + get_or bytes (offset + 2) 0

-- The loop of `u64`, over the bytes that are left.
abbrev pub big_endian : ℕ → List ℕ → ℕ → ℕ → ℕ
big_endian zero bytes offset value = value
big_endian (suc more) bytes offset value =
    big_endian more bytes (offset + 1) (value * 256 + get_or bytes offset 0)

unfoldable pub u64 : List ℕ → ℕ → ℕ
u64 bytes offset = big_endian 8 bytes offset 0

-- The tests of the header and of the first metadata block.
unfoldable pub check_head : List ℕ → Result (Unit {0})
check_head probe = do
  require (length probe == 42) invalid
  require
      ((get_or probe 0 0 == 102)
        && ((get_or probe 1 0 == 76) && ((get_or probe 2 0 == 97) && (get_or probe 3 0 == 67))))
      invalid
  require ((get_or probe 4 0 % 128 == 0) && (u24 probe 5 == 34)) invalid

unfoldable pub check_blocks : ℕ → ℕ → ℕ → ℕ → Result (Unit {0})
check_blocks minimum_block maximum_block minimum_frame maximum_frame = do
  require (leb 16 minimum_block && leb minimum_block maximum_block) shape
  require ((minimum_frame == 0) || ((maximum_frame == 0) || leb minimum_frame maximum_frame)) shape

unfoldable pub check_kind : ℕ → ℕ → ℕ → Result (Unit {0})
check_kind rate channels depth = do
  require ((rate == 44100) || ((rate == 48000) || ((rate == 88200) || (rate == 96000)))) shape
  require ((channels == 1) || (channels == 2)) shape
  require ((depth == 16) || (depth == 24)) shape

-- The comparison with the declared source; `totalSamples` 0 means that the count is unknown.
unfoldable pub check_expected : Option Expectation → ℕ → ℕ → ℕ → ℕ → Result (Unit {0})
check_expected none rate channels depth total = ok tt
check_expected (some e) rate channels depth total =
    require
      ((rate == e.sample_rate_hz)
        && ((channels == e.channels)
            && ((depth == e.bit_depth)
                && ((total == 0)
                    || ((total == e.frames)
                        && (total * channels * (depth / 8) == e.canonical_bytes))))))
      shape

-- `parseNativeFlacStreamInfo`: the information and whether its block is the last one.
unfoldable pub parse_stream_info : List ℕ → Option Expectation → Result (StreamInfo × Bool)
unfolding check_head check_blocks check_kind check_expected u64
parse_stream_info probe expected =
    let packed = u64 probe 18 in
    let rate = packed / 2 ^ 44 % 2 ^ 20 in
    let channels = packed / 2 ^ 41 % 2 ^ 3 + 1 in
    let depth = packed / 2 ^ 36 % 2 ^ 5 + 1 in
    let total = packed % 2 ^ 36 in
    do
      check_head probe
      check_blocks (u16 probe 8) (u16 probe 10) (u24 probe 12) (u24 probe 15)
      check_kind rate channels depth
      check_expected expected rate channels depth total
      ok (
        record {
          sample_rate_hz = rate;
          channels = channels;
          bit_depth = depth;
          total_samples = total;
          minimum_block_samples = u16 probe 8;
          maximum_block_samples = u16 probe 10;
          minimum_frame_bytes = u24 probe 12;
          maximum_frame_bytes = u24 probe 15;
          stream_md5 = subarray probe 26 42;
          decoder_description = set_at probe 4 (128 ∷ []);
        },
        leb 128 (get_or probe 4 0),
      )
