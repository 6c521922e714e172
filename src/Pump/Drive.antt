-- ===== src/Pump/Drive.antt =====
-- src/stems/pump.ts: the methods of `CanonicalPcmPump` over all of its sources.
use engine_web_adapter.Prelude.{
  ℕ, zero, suc, ◌+◌, ◌-◌, ◌%◌, Bool, true, false, ◌||◌, ◌&&◌, not, leb, ltb, ◌==◌, if◌then◌else◌,
  Option, none, some, List, [], ◌∷◌, length, map, get_elem?, Text, text_eq,
}
use engine_web_adapter.Errors.{
  session_closed, failure, plain_error, range_error, Result, ok, err, require, ◌>>=◌, ◌>>◌,
}
use engine_web_adapter.Json.{is_safe}
use engine_web_adapter.Pump.{
  RingOps, Source, Flight, is_some, write_one, schedule_one, settle, seek_one, close_one,
}

-- The fields of the class; `failed` tells whether `#failure` is set.
pub record Pump (R : Type 0) : Type 0 where
  pub states : List (Source R)
  pub window_frames : ℕ
  pub generation : ℕ
  pub stopped : Bool
  pub failed : Bool
  pub round_robin : ℕ

abbrev pub update_at : {A : Type 0} → ℕ → (A → A) → List A → List A
update_at i f [] = []
update_at zero f (x ∷ xs) = f x ∷ xs
update_at (suc i) f (x ∷ xs) = x ∷ update_at i f xs

-- `(this.#roundRobin + step) % length`, for the last `left` steps of `n`.
unfoldable pub rotation : ℕ → ℕ → ℕ → List ℕ
rotation round_robin n zero = []
rotation round_robin n (suc left) =
    ((round_robin + (n - suc left)) % n) ∷ rotation round_robin n left

-- `PcmPumpSource`; the identity is the number of a stem in the store.
pub record PumpSource (R : Type 0) : Type 0 where
  pub source_id : Text
  pub identity : ℕ
  pub channels : ℕ
  pub bit_depth : ℕ
  pub frames : ℕ
  pub ring : R

abbrev pub has_id : Text → List Text → Bool
has_id id [] = false
has_id id (seen ∷ ids) = text_eq seen id || has_id id ids

module _ {R : Type 0} (ops : RingOps R) where
  -- The tests of the constructor on one source over a verified lease, and the state that it starts
  -- from.
  unfoldable pub admit_source : ℕ → ℕ → List Text → PumpSource R → Result (Source R)
  admit_source window_frames generation ids source = do
    require (not (has_id source.source_id ids)) range_error
    require (leb 1 (length source.source_id)) range_error
    require (is_safe source.frames && leb 1 source.frames) range_error
    require (leb 1 source.channels && leb source.channels 2) range_error
    require ((source.bit_depth == 16) || (source.bit_depth == 24)) range_error
    require (ops.channels source.ring == source.channels) range_error
    require (leb (ops.frame_capacity source.ring) window_frames) range_error
    ok (record {
      identity = source.identity;
      channels = source.channels;
      bit_depth = source.bit_depth;
      frames = source.frames;
      ring = ops.engage generation source.ring;
      cursor = 0;
      window = none;
      next = none;
      reading = none;
      finished = false;
      base = 0;
      log = [];
    })

  unfoldable pub admit_sources : ℕ → ℕ → List Text → List (PumpSource R) → Result (List (Source R))
  unfolding admit_source
  admit_sources window_frames generation ids [] = ok []
  admit_sources window_frames generation ids (source ∷ sources) =
      admit_source window_frames generation ids source >>= λ s.
      admit_sources window_frames generation (source.source_id ∷ ids) sources >>= λ rest.
      ok (s ∷ rest)

  -- The constructor, for sources over a verified lease.
  unfoldable pub open_pump : ℕ → ℕ → List (PumpSource R) → Result (Pump R)
  unfolding admit_sources
  open_pump window_frames generation sources = do
    require (is_safe window_frames && leb 1 window_frames) range_error
    states ← admit_sources window_frames generation [] sources
    ok (record {
      states = states;
      window_frames = window_frames;
      generation = generation;
      stopped = false;
      failed = false;
      round_robin = 0;
    })

  -- The comparison of the sort: sources without a window first, then by their occupancy.
  abbrev urgency : Source R → ℕ
  urgency s = if is_some ops s.window then 1 else 0

  unfoldable pub is_before : Source R → Source R → Bool
  is_before a b =
      ltb (urgency a) (urgency b)
      || ((urgency a == urgency b) && ltb (ops.occupancy a.ring) (ops.occupancy b.ring))

  -- `Array.prototype.sort` is stable: an element goes before those that are not before it.
  unfoldable pub insert : Source R × ℕ → List (Source R × ℕ) → List (Source R × ℕ)
  unfolding is_before
  insert x [] = x ∷ []
  insert x (y ∷ ys) = if is_before y.0 x.0 then y ∷ insert x ys else x ∷ y ∷ ys

  unfoldable pub sort_urgent : List (Source R × ℕ) → List (Source R × ℕ)
  unfolding insert
  sort_urgent [] = []
  sort_urgent (x ∷ xs) = insert x (sort_urgent xs)

  unfoldable pub with_states : List (Source R) → List ℕ → List (Source R × ℕ)
  with_states states [] = []
  with_states states (i ∷ is) = elim (get_elem? states i) [
    | none ↦ with_states states is
    | some s ↦ (s, i) ∷ with_states states is
  ]

  -- `#reads.size`.
  abbrev pub reads_out : List (Source R) → ℕ
  reads_out [] = 0
  reads_out (s ∷ ss) = (if is_some ops s.reading then 1 else 0) + reads_out ss

  abbrev pub maximum_reads : ℕ
  maximum_reads = 4

  unfoldable pub schedule_in : ℕ → ℕ → List (Source R × ℕ) → List (Source R) → List (Source R)
  schedule_in window_frames generation [] states = states
  schedule_in window_frames generation (x ∷ xs) states =
      if leb maximum_reads (reads_out states)
      then states
      else schedule_in window_frames generation xs
          (update_at x.1 (schedule_one ops window_frames generation) states)

  -- `#scheduleReads`.
  unfoldable pub schedule_reads : Pump R → Pump R
  unfolding schedule_in sort_urgent with_states rotation
  schedule_reads p =
      let n = length p.states in
      let ordered = sort_urgent (with_states p.states (rotation p.round_robin n n)) in
      if p.stopped || p.failed
      then p
      else record p { states = schedule_in p.window_frames p.generation ordered p.states }

  -- The body of the loop of `pumpPass`, with the frames written.
  unfoldable pub write_at :
      ℕ → ℕ → List (Source R) → Option (Source R) → Result (List (Source R) × ℕ)
  write_at generation i states none = ok (states, 0)
  write_at generation i states (some s) =
      write_one ops generation s >>= λ w. ok (update_at i (λ _. w.0) states, w.1)

  -- The loop, with the chunks and the frames written.
  unfoldable pub write_all : ℕ → List ℕ → List (Source R) → Result (List (Source R) × ℕ × ℕ)
  unfolding write_at
  write_all generation [] states = ok (states, 0, 0)
  write_all generation (i ∷ is) states = write_at generation i states (get_elem? states i) >>= λ w.
      write_all generation is w.0 >>= λ rest.
      ok (rest.0, (if ltb 0 w.1 then 1 else 0) + rest.1, w.1 + rest.2)

  -- `pumpPass`, its second part: where the caller waits for reads, other steps come in between.
  unfoldable pub pass_writes : Pump R → Result (Pump R × ℕ × ℕ)
  unfolding write_all rotation schedule_reads
  pass_writes p = do
    require (not p.failed) plain_error
    (states, chunks, frames) ←
        write_all p.generation (rotation p.round_robin (length p.states) (length p.states)) p.states
    ok (
      schedule_reads
          (record p { states = states; round_robin = (p.round_robin + 1) % length p.states }),
      chunks,
      frames,
    )

  unfoldable pub pump_pass : Pump R → Result (Pump R × ℕ × ℕ)
  unfolding schedule_reads pass_writes
  pump_pass p =
      if p.failed
      then err plain_error
      else if p.stopped || (length p.states == 0)
      then ok (p, 0, 0)
      else pass_writes (schedule_reads p)

  -- The settlement of the read of one source, with `finally`.
  unfoldable pub settle_read : Pump R → ℕ → Source R → Flight → Option (List ℕ) → Pump R
  unfolding schedule_reads
  settle_read p i s f outcome =
      let settled = settle ops p.stopped p.generation s f outcome in
      schedule_reads (record p {
        states = update_at i (λ _. settled.0) p.states;
        failed = p.failed || settled.1;
      })

  -- The timer of `#readWindow`.
  unfoldable pub time_out : Pump R → Pump R
  time_out p = if p.stopped then p else record p { failed = true }

  -- `seekFrames`.
  unfoldable pub seek_frames : Pump R → ℕ → Result (Pump R)
  seek_frames p target = do
    require (not p.stopped) (failure session_closed)
    require (is_safe target) range_error
    ok (record p {
      generation = p.generation + 1;
      states = map (seek_one ops (p.generation + 1) target) p.states;
    })

  -- `close`.
  unfoldable pub close : Pump R → Pump R
  close p =
      if p.stopped then p else record p { stopped = true; states = map (close_one ops) p.states }
