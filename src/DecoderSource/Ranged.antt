-- ===== src/DecoderSource/Ranged.antt =====
-- src/stems/decoder-byte-source.ts, `makeDecoderByteSource`: a sequential source over a delivery of
-- ranges of one object. The delivery is a function of the number of the call, as it may answer the
-- same range in different ways; it gives bytes with the size of the object, or refuses.
use engine_web_adapter.Prelude.{
  ℕ, zero, suc, ◌+◌, ◌-◌, Bool, true, false, ◌||◌, not, leb, ltb, ◌==◌, if◌then◌else◌, min, Option,
  none, some, List, length,
}
use engine_web_adapter.Errors.{Result, ok, err}
use engine_web_adapter.Json.{is_safe}
use engine_web_adapter.FlacInput.{slot_bytes}
use engine_web_adapter.FlacMetadata.{probe_bytes, max_blocks, Scanner, scanner, accept_header}
use engine_web_adapter.FlacStreamInfo.{StreamInfo, Expectation, parse_stream_info}
use engine_web_adapter.DecoderSource.{
  Operation, preparing, reading, finishing, Outcome, done, failed,
}
use engine_web_adapter.DecoderSource.Finite.{Chunk, Prepared}
use engine_web_adapter.DecoderSource.Prepare.{frames_of, pcm_bytes_of}

-- The first argument of `range`.
pub data RangePhase : Type 0 where
  probe_phase metadata_phase audio_phase : RangePhase

abbrev pub Delivery : Type 0
Delivery = ℕ → RangePhase → ℕ → ℕ → Option (List ℕ × ℕ)

-- The variables of the closure, with the calls of `range` so far; `total_bytes` and `streamInfo` are
-- set where `prepared` is.
pub record Ranged : Type 0 where
  pub prepared : Bool
  pub finished : Bool
  pub offset : ℕ
  pub total_bytes : ℕ
  pub calls : ℕ

abbrev pub ranged : Ranged
ranged = record { prepared = false; finished = false; offset = 0; total_bytes = 0; calls = 0 }

abbrev pub Ended : Type 0 → Type 0
Ended A = Outcome A × Ranged

-- A failure leaves the rest of the statements.
abbrev pub then_do : {A B : Type 0} → Ended A → (A → Ranged → Ended B) → Ended B
then_do (failed operation, s) rest = (failed operation, s)
then_do (done a, s) rest = rest a s

-- A throw inside `prepare`.
abbrev pub as_failure : {A : Type 0} → Result A → Ranged → Ended A
as_failure (ok a) s = (done a, s)
as_failure (err thrown) s = (failed preparing, s)

abbrev pub answered : Operation → Option (List ℕ × ℕ) → Ranged → Ended (List ℕ × ℕ)
answered operation none s = (failed operation, s)
answered operation (some r) s = (done r, s)

module _ (range : Delivery) (expected : Option Expectation) where
  -- The inner function `range`.
  abbrev pub call : Operation → RangePhase → ℕ → ℕ → Ranged → Ended (List ℕ × ℕ)
  call operation phase start end s =
      answered operation (range s.calls phase start end) (record s { calls = s.calls + 1 })

  -- The loop over the metadata blocks; `accept_header` refuses the block after the 128th.
  unfoldable pub scan_headers : ℕ → Scanner → Ranged → Ended (Unit {0})
  unfolding accept_header
  scan_headers zero scan s = (failed preparing, s)
  scan_headers (suc fuel) scan s =
      if scan.complete
      then (done tt, s)
      else then_do (call preparing metadata_phase scan.next_offset (scan.next_offset + 3) s)
          λ result s1.
            then_do (as_failure (accept_header scan result.0 result.1) s1)
              λ r s2. scan_headers fuel r.1 (record s2 { offset = (r.0).next_offset })

  -- From the test for an audio suffix on.
  unfoldable pub check_suffix : StreamInfo → Ranged → Ended Prepared
  check_suffix info s =
      let frames = frames_of expected info in
      if leb s.total_bytes s.offset || (frames == 0) then (failed preparing, s) else (
        done (record {
          stream_info = info;
          expected_frames = frames;
          total_pcm_bytes = pcm_bytes_of expected info;
        }),
        record s { prepared = true },
      )

  unfoldable pub prepare_ranged : Ranged → Ended Prepared
  unfolding parse_stream_info scanner scan_headers check_suffix
  prepare_ranged s =
      if s.prepared
      then (failed preparing, s)
      else if s.finished
      then (failed preparing, s)
      else then_do (call preparing probe_phase 0 (probe_bytes - 1) s) λ probe s1.
        then_do
          (as_failure (parse_stream_info probe.0 expected) (record s1 { total_bytes = probe.1 }))
          λ parsed s2.
            then_do
              (scan_headers max_blocks (scanner parsed.1) (record s2 { offset = probe_bytes }))
              λ _ s3. check_suffix parsed.0 s3

  -- The tests on the bytes of a range, at the length that was asked for.
  unfoldable pub take_range : ℕ → ℕ → List ℕ × ℕ → Ranged → Ended Chunk
  take_range maximum asked result s =
      let size = length result.0 in
      if ltb size 1 || (ltb maximum size || not (size == asked)) then (failed reading, s) else (
        done (record { bytes = result.0; last = s.offset + size == s.total_bytes }),
        record s { offset = s.offset + size },
      )

  unfoldable pub read_ranged : ℕ → Ranged → Ended Chunk
  unfolding take_range
  read_ranged maximum s =
      let asked = min maximum (s.total_bytes - s.offset) in
      if not s.prepared
        || (s.finished
            || ((not (is_safe maximum) || (ltb maximum 1 || ltb slot_bytes maximum))
                || leb s.total_bytes s.offset))
      then (failed reading, s)
      else then_do (call reading audio_phase s.offset (s.offset + asked - 1) s)
          λ result s1. take_range maximum asked result s1

  unfoldable pub finish_ranged : Ranged → Ended (Unit {0})
  finish_ranged s =
      if not s.prepared
      then (failed finishing, s)
      else if s.finished
      then (done tt, s)
      else (done tt, record s { finished = true })
