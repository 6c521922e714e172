-- ===== src/DecoderSource/Finite.antt =====
-- src/stems/decoder-byte-source.ts, `makeFiniteDecoderByteSource`: a sequential source for one
-- declared extent, hashed as it is read. What `readBytes` will answer is a list of replies; a list
-- that has run out stands for a read that fails.
use engine_web_adapter.Prelude.{
  ℕ, ◌+◌, ◌-◌, Bool, true, false, ◌||◌, ◌&&◌, not, leb, ltb, ◌==◌, if◌then◌else◌, min, Option, List,
  [], ◌∷◌, ◌++◌, length, Text, text_eq,
}
use engine_web_adapter.Errors.{Result, ok, err, range_error, require, ◌>>◌}
use engine_web_adapter.Json.{is_safe}
use engine_web_adapter.Identity.{is_digest}
use engine_web_adapter.FlacInput.{slot_bytes}
use engine_web_adapter.FlacStreamInfo.{StreamInfo, Expectation}
use engine_web_adapter.Sha256.Hasher.{Backend, Hasher, fresh, update, digest}
use engine_web_adapter.DecoderSource.{
  Operation, reading, finishing, Outcome, done, failed, hex_text,
}

-- An answer of `readBytes`: bytes with `end`, or an error that names an operation.
pub data Reply : Type 0 where
  bytes_reply : List ℕ → Bool → Reply
  broken : Operation → Reply

-- What `pull` returns, without its release.
pub record Chunk : Type 0 where
  pub bytes : List ℕ
  pub last : Bool

-- What `prepare` returns.
pub record Prepared : Type 0 where
  pub stream_info : StreamInfo
  pub expected_frames : ℕ
  pub total_pcm_bytes : ℕ

-- The variables of the closure. `prepared` is set together with `streamInfo`.
pub record Cursor : Type 0 where
  pub offset : ℕ
  pub prepared : Bool
  pub finished : Bool
  pub source_done : Bool
  pub seen_bytes : ℕ
  pub hash : Hasher

-- The arguments of the constructor, and the backend of its hash.
pub record Extent : Type 0 where
  pub expected : Option Expectation
  pub total_bytes : ℕ
  pub flac_sha256 : Text
  pub backend : Backend

-- What a step leaves: its outcome, the replies to come, the variables.
abbrev pub After : Type 0 → Type 0
After A = Outcome A × List Reply × Cursor

-- A failure leaves the rest of the statements, and keeps the variables as they are.
abbrev pub and_then : {A B : Type 0} → After A → (A → List Reply → Cursor → After B) → After B
and_then (failed operation, replies, s) rest = (failed operation, replies, s)
and_then (done a, replies, s) rest = rest a replies s

unfoldable pub open_source : Extent → Result Cursor
unfolding is_digest fresh
open_source x = do
  require (is_safe x.total_bytes && leb 1 x.total_bytes) range_error
  require (is_digest x.flac_sha256) range_error
  ok (record {
    offset = 0;
    prepared = false;
    finished = false;
    source_done = false;
    seen_bytes = 0;
    hash = fresh;
  })

-- The bytes are hashed and counted; an early end is an error.
unfoldable pub count_bytes :
    Extent → List ℕ → Bool → Cursor → Result Hasher → Outcome Chunk × Cursor
count_bytes x bytes last s (err thrown) = (failed reading, s)
count_bytes x bytes last s (ok hash) =
    let offset = s.offset + length bytes in
    let is_last = last || (offset == x.total_bytes) in
    let counted = record s {
      offset = offset;
      seen_bytes = s.seen_bytes + length bytes;
      source_done = is_last;
      hash = hash;
    } in
    if is_last && not (offset == x.total_bytes)
    then (failed reading, counted)
    else (done (record { bytes = bytes; last = is_last }), counted)

-- `pull` behind its read.
unfoldable pub take_reply : Extent → ℕ → Reply → Cursor → Outcome Chunk × Cursor
unfolding count_bytes update
take_reply x maximum (broken operation) s = (failed operation, s)
take_reply x maximum (bytes_reply bytes last) s =
    if ltb (length bytes) 1
      || (ltb maximum (length bytes) || ltb (x.total_bytes - s.offset) (length bytes))
    then (failed reading, s)
    else count_bytes x bytes last s (update x.backend s.hash bytes)

-- The tests before the read: the credit, and whether the extent has bytes left.
abbrev pub is_refused : Extent → ℕ → Cursor → Bool
is_refused x maximum s =
    not (is_safe maximum)
    || (ltb maximum 1 || ltb slot_bytes maximum)
    || ltb (x.total_bytes - s.offset) 1

-- `pull`. Where it succeeds it has taken one reply.
unfoldable pub pull : Extent → ℕ → List Reply → Cursor → After Chunk
unfolding take_reply
pull x maximum [] s = (failed reading, [], s)
pull x maximum (reply ∷ replies) s =
    if is_refused x maximum s
    then (failed reading, reply ∷ replies, s)
    else let taken = take_reply x maximum reply s in (taken.0, replies, taken.1)

-- The loop of `readExact`, with `left` for `length - written`.
unfoldable pub read_exact : Extent → ℕ → List Reply → Cursor → After (List ℕ)
unfolding pull
read_exact x left [] s = if left == 0 then (done [], [], s) else (failed reading, [], s)
read_exact x left (reply ∷ replies) s =
    if left == 0
    then (done [], reply ∷ replies, s)
    else and_then (pull x (min slot_bytes left) (reply ∷ replies) s) λ chunk _ s1.
      and_then (read_exact x (left - length chunk.bytes) replies s1)
        λ more replies2 s2. (done (chunk.bytes ++ more), replies2, s2)

-- The loop over `skipped`.
unfoldable pub skip_bytes : Extent → ℕ → List Reply → Cursor → After (Unit {0})
unfolding pull
skip_bytes x left [] s = if left == 0 then (done tt, [], s) else (failed reading, [], s)
skip_bytes x left (reply ∷ replies) s =
    if left == 0
    then (done tt, reply ∷ replies, s)
    else and_then (pull x (min slot_bytes left) (reply ∷ replies) s)
        λ chunk _ s1. skip_bytes x (left - length chunk.bytes) replies s1

-- The loop of `finish`.
unfoldable pub drain : Extent → List Reply → Cursor → After (Unit {0})
unfolding pull
drain x [] s = if s.source_done then (done tt, [], s) else (failed reading, [], s)
drain x (reply ∷ replies) s =
    if s.source_done
    then (done tt, reply ∷ replies, s)
    else and_then (pull x slot_bytes (reply ∷ replies) s) λ chunk _ s1. drain x replies s1

-- `read`.
unfoldable pub read : Extent → ℕ → List Reply → Cursor → After Chunk
unfolding pull
read x maximum replies s =
    if not s.prepared || (s.finished || s.source_done)
    then (failed reading, replies, s)
    else pull x maximum replies s

-- The last test of `finish`; the digest is taken where the counts agree.
unfoldable pub check_digest :
    Extent → List Reply → Cursor → Result (List ℕ × Hasher) → After (Unit {0})
unfolding hex_text
check_digest x replies s (err thrown) = (failed finishing, replies, s)
check_digest x replies s (ok hashed) =
    if text_eq (hex_text hashed.0) x.flac_sha256
    then (done tt, replies, record s { hash = hashed.1 })
    else (failed finishing, replies, record s { hash = hashed.1 })

unfoldable pub check_extent : Extent → List Reply → Cursor → After (Unit {0})
unfolding check_digest digest
check_extent x replies s =
    if (s.seen_bytes == x.total_bytes) && (s.offset == x.total_bytes)
    then check_digest x replies s (digest x.backend s.hash)
    else (failed finishing, replies, s)

-- `finish`.
unfoldable pub finish : Extent → List Reply → Cursor → After (Unit {0})
unfolding drain check_extent
finish x replies s =
    if not s.prepared
    then (failed finishing, replies, s)
    else if s.finished
    then (done tt, replies, s)
    else and_then (drain x replies s)
        λ _ replies1 s1. check_extent x replies1 (record s1 { finished = true })
