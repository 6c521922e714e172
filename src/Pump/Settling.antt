-- ===== src/Pump/Settling.antt =====
-- src/stems/pump.ts: the settlement of a read, a seek and the closing keep the invariant of a source.
use engine_web_adapter.Prelude.{
  ℕ, ◌+◌, ◌*◌, ◌≡◌, refl, sym, ap, subst, ◌∙◌, Bool, true, false, not, ◌==◌, ==_iff, if_elim,
  Option, none, some, List, arith, length, subarray,
}
use engine_web_adapter.Pump.{
  RingOps, Window, Flight, Source, frame_bytes, keep_window, settle_bytes, settle, seek_one,
  close_one,
}
use engine_web_adapter.Pump.Buffered.{
  IsPlayed, IsCut, WindowsFit, Anchored, FlightFits, IsSource, end_lem,
}
use engine_web_adapter.Pump.Playing.{Sound, windows_stay}

module _ {R : Type 0} (ops : RingOps R) (pcm : ℕ → List ℕ) where
  -- What the verified store promises: bytes of the right count are those of the canonical PCM.
  abbrev pub Delivers : Source R → Flight → Option (List ℕ) → Type 0
  Delivers s f none = Unit {0}
  Delivers s f (some bytes) =
      length bytes ≡ f.count
      → bytes
        ≡ subarray (pcm s.identity) (f.start * frame_bytes ops s)
            (f.start * frame_bytes ops s + f.count)

  -- The source without its read.
  abbrev landed : Source R → Source R
  landed s = record s { reading = none }

  landed-Sound :
      (generation : ℕ) (s : Source R)
      → Sound ops pcm generation s
      → Sound ops pcm generation (landed s)
  landed-Sound generation s (p, b) = (
    record { shaped = p.shaped; within = p.within; ended = p.ended; played = p.played },
    record {
      windows = windows_stay ops pcm generation s s.window s.next none b.windows;
      flight = tt;
    },
  )

  keep-Sound :
      (generation : ℕ) (s : Source R) (w : Window) (window : Option Window)
      → s.window ≡ window
      → s.reading ≡ none
      → s.next ≡ none
      → IsCut ops pcm s w
      → Anchored ops pcm s window w.start
      → Sound ops pcm generation s
      → Sound ops pcm generation (keep_window ops s w window)
  unfolding keep_window
  keep-Sound generation s w none e quiet single cut here (p, b) =
      let stop = end_lem ops pcm s w p.shaped cut in
      (
        record { shaped = p.shaped; within = p.within; ended = p.ended; played = p.played },
        record {
          windows =
              subst (λ o. WindowsFit ops pcm (record s { window = some w }) (some w) o) (sym single)
                (
                  record { size = cut.size; cut = cut.cut; whole = cut.whole },
                  omega arith,
                  omega arith,
                  tt,
                );
          flight =
              subst (FlightFits ops pcm (record s { window = some w }) generation) (sym quiet) tt;
        },
      )
  keep-Sound generation s w (some c) e quiet single cut here (p, b) =
      let (ccut, from, inside, after) = subst (λ o. WindowsFit ops pcm s o s.next) e b.windows in
      (
        record { shaped = p.shaped; within = p.within; ended = p.ended; played = p.played },
        record {
          windows =
              subst (λ o. WindowsFit ops pcm (record s { next = some w }) o (some w)) (sym e)
                (
                  record { size = ccut.size; cut = ccut.cut; whole = ccut.whole },
                  from,
                  inside,
                  (record { size = cut.size; cut = cut.cut; whole = cut.whole }, here),
                );
          flight =
              subst (FlightFits ops pcm (record s { next = some w }) generation) (sym quiet) tt;
        },
      )

  landed_anchor :
      (s : Source R) (window : Option Window) (start : ℕ)
      → Anchored ops pcm s window start
      → Anchored ops pcm (landed s) window start
  landed_anchor s none start a = a
  landed_anchor s (some w) start a = a

  bytes-Sound :
      (generation : ℕ) (s : Source R) (f : Flight) (outcome : Option (List ℕ))
      → s.reading ≡ some f
      → f.generation ≡ generation
      → Delivers s f outcome
      → Sound ops pcm generation s
      → Sound ops pcm generation (settle_bytes ops (landed s) f outcome).0
  unfolding settle_bytes
  bytes-Sound generation s f none e now d v = landed-Sound generation s v
  bytes-Sound generation s f (some bytes) e now d v =
      let (old, fits) = subst (FlightFits ops pcm s generation) e (v.1).flight in
      let (single, anchored, size) = fits now in
      if_elim (λ (r : Source R × Bool). Sound ops pcm generation r.0) (length bytes == f.count)
        (λ right.
          let counted : length bytes ≡ f.count = (==_iff (length bytes) f.count).0 right in
          keep-Sound generation (landed s) (record { bytes = bytes; start = f.start }) s.window refl
            refl single
            (record {
              size = size.0;
              cut =
                  d counted
                  ∙ ap
                      (λ n.
                        subarray (pcm s.identity) (f.start * frame_bytes ops s)
                          (f.start * frame_bytes ops s + n))
                      size.1;
              whole = counted ∙ size.1;
            })
            (landed_anchor s s.window f.start anchored) (landed-Sound generation s v))
        (λ wrong. landed-Sound generation s v)

  still-Played :
      (generation : ℕ) (s : Source R)
      → IsPlayed ops pcm generation s
      → IsPlayed ops pcm generation (landed s)
  still-Played generation s p = record {
    shaped = p.shaped;
    within = p.within;
    ended = p.ended;
    played = p.played;
  }

  pub settle-IsSource :
      (stopped : Bool) (generation : ℕ) (s : Source R) (f : Flight) (outcome : Option (List ℕ))
      → s.reading ≡ some f
      → Delivers s f outcome
      → IsSource ops pcm stopped generation s
      → IsSource ops pcm stopped generation (settle ops stopped generation s f outcome).0
  unfolding settle
  settle-IsSource true generation s f outcome e d v = record {
    plays = still-Played generation s v.plays;
    buffers = λ running. absurd (cc);
  }
  settle-IsSource false generation s f outcome e d v =
      let sound : Sound ops pcm generation s = (v.plays, v.buffers refl) in
      if_elim (λ (r : Source R × Bool). IsSource ops pcm false generation r.0)
        (not (f.generation == generation))
        (λ stale.
          let w = landed-Sound generation s sound in
          record { plays = w.0; buffers = λ running. w.1 })
        (λ current.
          let w = bytes-Sound generation s f outcome e (ground arith) d sound in
          record { plays = w.0; buffers = λ running. w.1 })

  seek_flight :
      (s : Source R) (generation target : ℕ) (reading : Option Flight)
      → FlightFits ops pcm s generation reading
      → FlightFits ops pcm (seek_one ops (generation + 1) target s) (generation + 1) reading
  seek_flight s generation target none fits = tt
  seek_flight s generation target (some f) fits =
      (omega (arith, fits.0), λ now. absurd (omega (arith, fits.0)))

  pub seek-IsSource :
      (generation target : ℕ) (s : Source R)
      → IsSource ops pcm false generation s
      → IsSource ops pcm false (generation + 1) (seek_one ops (generation + 1) target s)
  unfolding seek_one
  seek-IsSource generation target s v =
      let p = v.plays in
      record {
        plays = record { shaped = p.shaped; within = omega arith; ended = refl; played = refl };
        buffers = λ running. record {
          windows = refl;
          flight = seek_flight s generation target s.reading (v.buffers refl).flight;
        };
      }

  pub close-IsSource :
      (stopped : Bool) (generation : ℕ) (s : Source R)
      → IsSource ops pcm stopped generation s
      → IsSource ops pcm true generation (close_one ops s)
  unfolding close_one
  close-IsSource stopped generation s v =
      let p = v.plays in
      record {
        plays = record { shaped = p.shaped; within = p.within; ended = p.ended; played = p.played };
        buffers = λ running. absurd (cc);
      }
