-- ===== src/Pump.antt =====
-- src/stems/pump.ts, `CanonicalPcmPump`: windows of canonical PCM are read ahead of the cursor of
-- each source and handed to its ring, one render quantum at a time. The ring is a package outside the
-- repository: its reads are the operations of `RingOps`.
mod Samples
mod Drive
mod Canonical
mod Buffered
mod Playing
mod Settling
mod Reach
mod Orders
mod Tests
use engine_web_adapter.Prelude.{
  ℕ, zero, suc, ◌+◌, ◌-◌, ◌*◌, ◌/◌, Bool, true, false, ◌||◌, ◌&&◌, not, leb, ltb, ◌==◌,
  if◌then◌else◌, min, Option, none, some, List, [], ◌∷◌, ◌++◌, length, ℤ,
}
use engine_web_adapter.Errors.{plain_error, range_error, Result, ok, err, require, ◌>>=◌, ◌>>◌}
use engine_web_adapter.Pump.Samples.{deinterleave}

-- What `commit` is called with, and the planes that were filled before.
pub record Commit : Type 0 where
  pub generation : ℕ
  pub start_frame : ℕ
  pub frames : ℕ
  pub end_of_region : Bool
  pub planes : List (List ℤ)

-- `Msb1RingWriter`: what the pump reads of a ring, and its calls. `reserve` gives the lengths of the
-- planes, or nothing.
pub record RingOps (R : Type 0) : Type 0 where
  pub channels : R → ℕ
  pub capacity : R → ℕ
  pub frame_capacity : R → ℕ
  pub occupancy : R → ℕ
  pub reserve : R → ℕ → Option (List ℕ)
  pub engage : ℕ → R → R
  pub commit : Commit → R → R
  pub seek : ℕ → ℕ → R → R
  pub release : R → R

-- `PcmWindow`.
pub record Window : Type 0 where
  pub bytes : List ℕ
  pub start : ℕ

-- A read that has not settled, with the arguments of `#readWindow`.
pub record Flight : Type 0 where
  pub start : ℕ
  pub count : ℕ
  pub generation : ℕ

-- `SourceState`; `base` is the frame where the ring was engaged or last sought, and `log` the calls
-- of `commit` since then.
pub record Source (R : Type 0) : Type 0 where
  pub identity : ℕ
  pub channels : ℕ
  pub bit_depth : ℕ
  pub frames : ℕ
  pub ring : R
  pub cursor : ℕ
  pub window : Option Window
  pub next : Option Window
  pub reading : Option Flight
  pub finished : Bool
  pub base : ℕ
  pub log : List Commit

module _ {R : Type 0} (ops : RingOps R) where
  abbrev pub frame_bytes : Source R → ℕ
  frame_bytes s = s.channels * (s.bit_depth / 8)

  -- `#end`.
  abbrev pub window_end : Source R → Window → ℕ
  window_end s w = w.start + length w.bytes / frame_bytes s

  -- The change that `#canWrite` makes.
  unfoldable pub advance : Source R → Option Window → Source R
  advance s none = s
  advance s (some w) =
      if leb (window_end s w) s.cursor then record s { window = s.next; next = none } else s

  abbrev pub is_some : {A : Type 0} → Option A → Bool
  is_some none = false
  is_some (some a) = true

  abbrev pub is_blocked : Source R → Bool
  is_blocked s = s.finished || leb (ops.capacity s.ring) (ops.occupancy s.ring)

  -- `#canWrite`: the source that it leaves, and its answer.
  unfoldable pub can_write : Source R → Source R × Bool
  unfolding advance
  can_write s =
      if is_blocked s then (s, false) else (advance s s.window, is_some (advance s s.window).window)

  -- The argument of `commit`.
  abbrev pub commit_of : ℕ → Source R → ℕ → List (List ℤ) → Commit
  commit_of generation s count planes = record {
    generation = generation;
    start_frame = s.cursor;
    frames = count;
    end_of_region = s.cursor + count == s.frames;
    planes = planes;
  }

  -- `#writeOne` from `reserve` on, with the window `w` and `count` frames.
  unfoldable pub write_frames : ℕ → Source R → Window → ℕ → Option (List ℕ) → Result (Source R × ℕ)
  write_frames generation s w count none = ok (s, 0)
  write_frames generation s w count (some plane_lengths) = do
    planes ← deinterleave w.bytes (s.cursor - w.start) count s.channels s.bit_depth plane_lengths
    ok (
      record s {
        cursor = s.cursor + count;
        finished = s.cursor + count == s.frames;
        ring = ops.commit (commit_of generation s count planes) s.ring;
        log = s.log ++ (commit_of generation s count planes ∷ []);
      },
      count,
    )

  -- `#writeOne`, where `#canWrite` has answered.
  unfoldable pub write_window : ℕ → Source R → Option Window → Result (Source R × ℕ)
  unfolding write_frames
  write_window generation s none = ok (s, 0)
  write_window generation s (some w) =
      let count = min (ops.frame_capacity s.ring) (s.frames - s.cursor) in
      if ltb (window_end s w) (s.cursor + count)
      then err plain_error
      else write_frames generation s w count (ops.reserve s.ring count)

  unfoldable pub write_one : ℕ → Source R → Result (Source R × ℕ)
  unfolding can_write write_window
  write_one generation s =
      let answered = can_write s in
      if answered.1
      then write_window generation answered.0 (answered.0).window
      else ok (answered.0, 0)

  -- The frames that `#readWindow` asks for, in bytes.
  abbrev pub read_count : ℕ → Source R → ℕ → ℕ
  read_count window_frames s start =
      min (window_frames / ops.frame_capacity s.ring * ops.frame_capacity s.ring) (s.frames - start)
      * frame_bytes s

  -- The frame from which `#scheduleReads` reads next for a source that it does not pass over.
  unfoldable pub read_start : ℕ → Source R → Option Window → Option ℕ
  read_start window_frames s none = some s.cursor
  read_start window_frames s (some w) =
      if is_some s.next
        || (leb s.frames (window_end s w) || ltb ((s.cursor - w.start) * 2) window_frames)
      then none
      else some (window_end s w)

  unfoldable pub begin_read : ℕ → ℕ → Source R → Option ℕ → Source R
  begin_read window_frames generation s none = s
  begin_read window_frames generation s (some start) = record s {
    reading = some (record {
      start = start;
      count = read_count window_frames s start;
      generation = generation;
    });
  }

  -- The body of the loop of `#scheduleReads`, while fewer than four reads are out.
  unfoldable pub schedule_one : ℕ → ℕ → Source R → Source R
  unfolding can_write read_start begin_read
  schedule_one window_frames generation s =
      let looked = (can_write s).0 in
      if s.finished || is_some s.reading
      then s
      else begin_read window_frames generation looked
          (read_start window_frames looked looked.window)

  unfoldable pub keep_window : Source R → Window → Option Window → Source R
  keep_window s w none = record s { window = some w }
  keep_window s w (some current) = record s { next = some w }

  -- `#readWindow` behind its read, which gave `bytes` or was rejected: the source, and whether there
  -- is a failure.
  unfoldable pub settle_bytes : Source R → Flight → Option (List ℕ) → Source R × Bool
  unfolding keep_window
  settle_bytes s f none = (s, true)
  settle_bytes s f (some bytes) =
      if length bytes == f.count
      then (keep_window s (record { bytes = bytes; start = f.start }) s.window, false)
      else (s, true)

  -- With `state.reading = undefined` of `finally`.
  unfoldable pub settle : Bool → ℕ → Source R → Flight → Option (List ℕ) → Source R × Bool
  unfolding settle_bytes
  settle stopped generation s f outcome =
      let settled = record s { reading = none } in
      if stopped || not (f.generation == generation)
      then (settled, false)
      else settle_bytes settled f outcome

  -- The body of the loop of `seekFrames`, with the new generation.
  unfoldable pub seek_one : ℕ → ℕ → Source R → Source R
  seek_one generation target s =
      let cursor = min target s.frames in
      record s {
        cursor = cursor;
        window = none;
        next = none;
        finished = cursor == s.frames;
        ring = ops.seek generation cursor s.ring;
        base = cursor;
        log = [];
      }

  -- The body of the loop of `close`.
  unfoldable pub close_one : Source R → Source R
  close_one s = record s { ring = ops.release s.ring; window = none; next = none }
