-- ===== src/Pump/Tests.antt =====
-- src/stems/pump.ts: a mono source of three frames, played through a ring of four quanta of two frames.
use engine_web_adapter.Prelude.{
  ℕ, ◌+◌, ◌≡◌, refl, true, false, List, [], ◌∷◌, none, some, codes, pos, negsuc,
}
use engine_web_adapter.Errors.{ok, err, range_error}
use engine_web_adapter.Pump.{RingOps, Commit, Source, Flight, schedule_one, settle}
use engine_web_adapter.Pump.Samples.{deinterleave}
use engine_web_adapter.Pump.Drive.{Pump, PumpSource, open_pump, schedule_reads, settle_read}

-- A ring that counts the quanta it holds.
abbrev counting : RingOps ℕ
counting = record {
  channels = λ _. 1;
  capacity = λ _. 4;
  frame_capacity = λ _. 2;
  occupancy = λ held. held;
  reserve = λ held count. some (2 ∷ []);
  engage = λ generation held. 0;
  commit = λ c held. held + 1;
  seek = λ generation frame held. 0;
  release = λ held. held;
}

abbrev stored : ℕ → List ℕ
stored _ = 1 ∷ 0 ∷ 0xff ∷ 0xff ∷ 2 ∷ 1 ∷ []

abbrev mono : PumpSource ℕ
mono = record {
  source_id = codes "mono";
  identity = 0;
  channels = 1;
  bit_depth = 16;
  frames = 3;
  ring = 9;
}

abbrev waiting : Source ℕ
waiting = record {
  identity = 0;
  channels = 1;
  bit_depth = 16;
  frames = 3;
  ring = 0;
  cursor = 0;
  window = none;
  next = none;
  reading = none;
  finished = false;
  base = 0;
  log = [];
}

abbrev first_read : Flight
first_read = record { start = 0; count = 6; generation = 7 }

abbrev reading_first : Source ℕ
reading_first = record waiting { reading = some first_read }

abbrev started : Pump ℕ
started = record {
  states = waiting ∷ [];
  window_frames = 4;
  generation = 7;
  stopped = false;
  failed = false;
  round_robin = 0;
}

abbrev buffered : Pump ℕ
buffered = record started {
  states = record waiting { window = some (record { bytes = stored 0; start = 0 }) } ∷ [];
}

abbrev committed : List Commit
committed =
    record {
      generation = 7;
      start_frame = 0;
      frames = 2;
      end_of_region = false;
      planes = (pos 1 ∷ negsuc 0 ∷ []) ∷ [];
    }
    ∷ []

abbrev playing : Pump ℕ
playing = record started {
  states =
      record waiting {
        window = some (record { bytes = stored 0; start = 0 });
        cursor = 2;
        ring = 1;
        log = committed;
      }
      ∷ [];
}

same_id_refused : open_pump counting 4 7 (mono ∷ mono ∷ []) ≡ err range_error
unfolding open_pump
same_id_refused = refl

reads_ahead : schedule_reads counting started ≡ record started { states = reading_first ∷ [] }
unfolding schedule_reads schedule_one
reads_ahead = refl

settles_first :
    settle_read counting
      (schedule_reads counting started)
      0
      reading_first
      first_read
      (some (stored 0))
    ≡ buffered
unfolding settle_read settle schedule_one
settles_first = refl

short_read_fails :
    (settle_read counting
      (schedule_reads counting started)
      0
      reading_first
      first_read
      (some (1 ∷ []))).failed
    ≡ true
unfolding settle_read settle
short_read_fails = refl

past_the_end : deinterleave (stored 0) 2 2 1 16 (2 ∷ []) ≡ err range_error
unfolding deinterleave
past_the_end = refl

three_bytes :
    deinterleave (0xff ∷ 0xff ∷ 0xff ∷ 0 ∷ 1 ∷ 0 ∷ []) 0 1 2 24 (1 ∷ 1 ∷ [])
    ≡ ok ((negsuc 0 ∷ []) ∷ (pos 256 ∷ []) ∷ [])
unfolding deinterleave
three_bytes = refl
