-- ===== src/DecoderSource/Prepare.antt =====
-- src/stems/decoder-byte-source.ts, `prepare` of `makeFiniteDecoderByteSource`.
use engine_web_adapter.Prelude.{
  ℕ, zero, suc, ◌-◌, ◌*◌, ◌/◌, true, ◌&&◌, leb, ◌==◌, if◌then◌else◌, Option, none, some, List,
}
use engine_web_adapter.Errors.{Result, ok, err}
use engine_web_adapter.Json.{is_safe}
use engine_web_adapter.FlacMetadata.{
  probe_bytes, max_blocks, Scanner, Header, scanner, accept_header,
}
use engine_web_adapter.FlacStreamInfo.{StreamInfo, Expectation, parse_stream_info}
use engine_web_adapter.DecoderSource.{preparing, done, failed}
use engine_web_adapter.DecoderSource.Finite.{
  Reply, Prepared, Cursor, Extent, After, and_then, read_exact, skip_bytes,
}

-- A throw inside `prepare` becomes a failure of the operation.
abbrev pub caught : {A : Type 0} → Result A → List Reply → Cursor → After A
caught (ok a) replies s = (done a, replies, s)
caught (err thrown) replies s = (failed preparing, replies, s)

-- The comparison of `metadata.offset` with the offset before the header.
unfoldable pub aligned : ℕ → Header × Scanner → List Reply → Cursor → After (Header × Scanner)
aligned header_offset r replies s =
    if (r.0).offset == header_offset then (done r, replies, s) else (failed preparing, replies, s)

-- The loop over the metadata blocks; `accept_header` refuses the block after the 128th.
unfoldable pub scan_blocks : ℕ → Extent → Scanner → List Reply → Cursor → After (Unit {0})
unfolding read_exact accept_header aligned skip_bytes
scan_blocks zero x scan replies s = (failed preparing, replies, s)
scan_blocks (suc fuel) x scan replies s =
    if scan.complete
    then (done tt, replies, s)
    else and_then (read_exact x 4 replies s) λ header replies1 s1.
      and_then (caught (accept_header scan header x.total_bytes) replies1 s1) λ r replies2 s2.
        and_then (aligned s.offset r replies2 s2) λ r replies3 s3.
          and_then (skip_bytes x ((r.0).next_offset - s3.offset) replies3 s3)
            λ _ replies4 s4. scan_blocks fuel x r.1 replies4 s4

-- `options.expected?.frames ?? parsed.streamInfo.totalSamples`.
abbrev pub frames_of : Option Expectation → StreamInfo → ℕ
frames_of none info = info.total_samples
frames_of (some e) info = e.frames

abbrev pub pcm_bytes_of : Option Expectation → StreamInfo → ℕ
pcm_bytes_of none info = info.total_samples * info.channels * (info.bit_depth / 8)
pcm_bytes_of (some e) info = e.canonical_bytes

-- From the test for an audio suffix on.
unfoldable pub check_audio : Extent → StreamInfo → List Reply → Cursor → After Prepared
check_audio x info replies s =
    let frames = frames_of x.expected info in
    let bytes = pcm_bytes_of x.expected info in
    if leb x.total_bytes s.offset
    then (failed preparing, replies, s)
    else if is_safe frames && leb 1 frames && (is_safe bytes && leb 1 bytes)
    then (
      done (record { stream_info = info; expected_frames = frames; total_pcm_bytes = bytes }),
      replies,
      record s { prepared = true },
    )
    else (failed preparing, replies, s)

unfoldable pub prepare : Extent → List Reply → Cursor → After Prepared
unfolding read_exact parse_stream_info scanner scan_blocks check_audio
prepare x replies s =
    if s.prepared
    then (failed preparing, replies, s)
    else if s.finished
    then (failed preparing, replies, s)
    else and_then (read_exact x probe_bytes replies s) λ probe replies1 s1.
      and_then (caught (parse_stream_info probe x.expected) replies1 s1) λ parsed replies2 s2.
        and_then (scan_blocks max_blocks x (scanner parsed.1) replies2 s2)
          λ _ replies3 s3. check_audio x parsed.0 replies3 s3
