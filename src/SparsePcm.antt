-- ===== src/SparsePcm.antt =====
-- src/stems/sparse-pcm.ts: the packed PCM of a stem whose silent stretches are not stored, and the
-- read of a window of the timeline from it. A byte array is the list of its bytes.
mod Layout
mod Copy
mod Search
mod Window
mod Read
mod Serve
mod Admit
mod Admitted
mod Derive
mod AdmitTests
mod DeriveTests
mod Tests
use engine_web_adapter.Prelude.{
  ℕ, zero, suc, ◌+◌, ◌-◌, ◌*◌, ◌/◌, Bool, true, false, ltb, leb, ◌==◌, if◌then◌else◌, List, [], ◌∷◌,
  none, some, min, max, Text, length, get_elem?, take, drop, replicate, subarray, set_at,
}
use engine_web_adapter.Errors.{stem_corrupt, failure, Result, ok, err, require, ◌>>=◌, ◌>>◌}
use engine_web_adapter.Json.{Value, integer, is_safe}

-- `SparsePcmInterval`: frames `start_frame ..< start_frame + frames`, stored from `byte_offset` on.
pub record Interval : Type 0 where
  pub start_frame : ℕ
  pub frames : ℕ
  pub byte_offset : ℕ

-- `SparsePcmIndex`, without its constant format tag.
pub record Index : Type 0 where
  pub identity : Text
  pub sample_rate_hz : ℕ
  pub channels : ℕ
  pub bit_depth : ℕ
  pub frames : ℕ
  pub intervals : List Interval
  pub active_bytes : ℕ
  pub canonical_bytes : ℕ

abbrev pub max_window_frames : ℕ
max_window_frames = 8192

abbrev pub bytes_per_frame : ℕ → ℕ → ℕ
bytes_per_frame channels bit_depth = channels * (bit_depth / 8)

abbrev pub end_frame : Interval → ℕ
end_frame i = i.start_frame + i.frames

-- The loop of `firstIntersecting` over `low` and `high`. A read past the end does not happen (see
-- Search); the model stops there.
pub first_from : ℕ → List Interval → ℕ → ℕ → ℕ → ℕ
first_from zero intervals frame low high = low
first_from (suc fuel) intervals frame low high =
    let middle = low + (high - low) / 2 in
    let up = first_from fuel intervals frame (middle + 1) high in
    let down = first_from fuel intervals frame low middle in
    elim (ltb low high) [
      | true ↦ elim (get_elem? intervals middle) [
        | none ↦ low
        | some i ↦ if leb (end_frame i) frame then up else down
      ]
      | false ↦ low
    ]

-- Each round shortens `high - low`, so one more round than there are intervals is enough.
pub first_intersecting : List Interval → ℕ → ℕ
unfolding first_from
first_intersecting intervals frame =
    first_from (suc (length intervals)) intervals frame 0 (length intervals)

-- The loop that moves `last` on: `rest` is what lies behind `intervals[last]`.
pub last_from : List Interval → ℕ → ℕ → ℕ
last_from [] stop last = last
last_from (i ∷ rest) stop last =
    if ltb i.start_frame stop then last_from rest stop (last + 1) else last

-- The body of the copy loop, at one interval.
pub copy_interval : ℕ → ℕ → ℕ → ℕ → List ℕ → List ℕ → Interval → List ℕ
copy_interval frame_bytes start stop packed_start source output i =
    let from = max start i.start_frame in
    let to = min stop (end_frame i) in
    let source_offset = i.byte_offset + (from - i.start_frame) * frame_bytes - packed_start in
    let copy_bytes = (to - from) * frame_bytes in
    if leb to from
    then output
    else set_at output ((from - start) * frame_bytes)
        (subarray source source_offset (source_offset + copy_bytes))

pub copy_intervals : ℕ → ℕ → ℕ → ℕ → List ℕ → List Interval → List ℕ → List ℕ
copy_intervals frame_bytes start stop packed_start source [] output = output
copy_intervals frame_bytes start stop packed_start source (i ∷ is) output =
    copy_intervals frame_bytes start stop packed_start source is
      (copy_interval frame_bytes start stop packed_start source output i)

-- `readSparsePcmWindow` from `const firstFrame` on, with `intervals[first]` and `intervals[last]`.
pub read_range :
    ℕ → List Interval → List ℕ → ℕ → ℕ → List ℕ → ℕ → Interval → ℕ → Interval → Result (List ℕ)
unfolding copy_intervals copy_interval
read_range frame_bytes intervals packed start stop output first first_interval last last_interval =
    let first_frame = max start first_interval.start_frame in
    let last_frame = min stop (end_frame last_interval) in
    let packed_start =
      first_interval.byte_offset + (first_frame - first_interval.start_frame) * frame_bytes in
    let packed_end =
      last_interval.byte_offset + (last_frame - last_interval.start_frame) * frame_bytes in
    let source = subarray packed packed_start packed_end in
    do
      require (is_safe packed_start) (failure stem_corrupt)
      require (is_safe packed_end) (failure stem_corrupt)
      require (leb packed_start packed_end) (failure stem_corrupt)
      require (length source == packed_end - packed_start) (failure stem_corrupt)
      ok (
          copy_intervals frame_bytes start stop packed_start source
            (take (last + 1 - first) (drop first intervals)) output)

-- `readSparsePcmWindow` from `const first` on.
pub read_bytes : ℕ → List Interval → List ℕ → ℕ → ℕ → List ℕ → Result (List ℕ)
unfolding first_intersecting last_from read_range
read_bytes frame_bytes intervals packed start stop output =
    let first = first_intersecting intervals start in
    let last = last_from (drop (first + 1) intervals) stop first in
    elim (get_elem? intervals first) [
      | none ↦ ok output
      | some fi ↦ if leb stop fi.start_frame then ok output else elim (get_elem? intervals last) [
        | none ↦ err (failure stem_corrupt)
        | some li ↦ read_range frame_bytes intervals packed start stop output first fi last li
      ]
    ]

-- `readSparsePcmWindow`. `admitted` is `ADMITTED.has(index)`; `packed` is the content of the blob.
pub read_window : Bool → Index → List ℕ → Value → Value → Result (List ℕ)
unfolding read_bytes integer
read_window admitted index packed start_frame frame_count = do
  require admitted (failure stem_corrupt)
  require (is_safe (length packed)) (failure stem_corrupt)
  require (length packed == index.active_bytes) (failure stem_corrupt)
  start ← integer start_frame 0
  count ← integer frame_count 1
  require (leb count max_window_frames) (failure stem_corrupt)
  require (leb (start + count) index.frames) (failure stem_corrupt)
  let frame_bytes = bytes_per_frame index.channels index.bit_depth
  require (is_safe (count * frame_bytes)) (failure stem_corrupt)
  read_bytes frame_bytes index.intervals packed start (start + count)
      (replicate (count * frame_bytes) 0)
