-- ===== src/Pump/Playing.antt =====
-- src/stems/pump.ts: the operations on one source keep its invariant.
use engine_web_adapter.Prelude.{
  ℕ, ◌+◌, ◌-◌, ◌*◌, ◌/◌, ◌≤◌, ◌≡◌, refl, sym, ap, subst, ◌∙◌, Bool, false, ◌||◌, ◌&&◌, leb, ltb,
  ◌==◌, if_elim, if_inv, leb→le, Option, none, some, List, [], ◌∷◌, ◌++◌, arith, length, min, ℤ,
}
use engine_web_adapter.Errors.{ok, range_error}
use engine_web_adapter.SparseFormat.Sound.{bind_elim, ok_injective}
use engine_web_adapter.SparseFormat.Accept.{require_elim}
use engine_web_adapter.Pump.Samples.{deinterleave, planes_of, all_hold}
use engine_web_adapter.Pump.{
  RingOps, Commit, Window, Flight, Source, frame_bytes, window_end, advance, is_some, is_blocked,
  can_write, commit_of, write_frames, write_window, write_one, read_count, read_start, begin_read,
  schedule_one,
}
use engine_web_adapter.Pump.Canonical.{canonical_planes, canonical_planes-cut}
use engine_web_adapter.Pump.Buffered.{
  Played-snoc, IsShaped, IsPlayed, IsCut, NextFits, WindowsFit, Anchored, FlightFits, IsBuffered,
  end_lem,
}

module _ {R : Type 0} (ops : RingOps R) (pcm : ℕ → List ℕ) (generation : ℕ) where
  -- Both parts of the invariant, while the pump runs.
  abbrev pub Sound : Source R → Type 0
  Sound s = IsPlayed ops pcm generation s × IsBuffered ops pcm generation s

  -- The current window is used up: the next one takes its place.
  advance_windows :
      (s : Source R) (w : Window) (next : Option Window)
      → IsShaped s.channels s.bit_depth
      → s.next ≡ next
      → WindowsFit ops pcm s (some w) next
      → window_end ops s w ≤ s.cursor
      → WindowsFit ops pcm (record s { window = next; next = none }) next none
  advance_windows s w none shape e fit used = refl
  advance_windows s w (some n) shape e (cut, from, within, after) used =
      let (ncut, follows) = after in
      let stop = end_lem ops pcm s n shape ncut in
      (
        record { size = ncut.size; cut = ncut.cut; whole = ncut.whole },
        omega arith,
        omega arith,
        tt,
      )

  advance_flight :
      (s : Source R) (w : Window) (reading : Option Flight)
      → s.window ≡ some w
      → window_end ops s w ≡ s.cursor
      → FlightFits ops pcm s generation reading
      → FlightFits ops pcm (record s { window = s.next; next = none }) generation reading
  advance_flight s w none e used fits = tt
  advance_flight s w (some f) e used (old, fits) = (
    old,
    λ now.
        let (empty, anchored, size) = fits now in
        let here : f.start ≡ s.cursor =
          subst (λ o. Anchored ops pcm s o f.start) e anchored ∙ used in
        (
          refl,
          subst (λ o. Anchored ops pcm (record s { window = s.next; next = none }) o f.start)
              (sym empty) here,
          size,
        ),
  )

  advance-Sound :
      (s : Source R) (window : Option Window)
      → s.window ≡ window
      → Sound s
      → Sound (advance ops s window)
  unfolding advance
  advance-Sound s none e v = v
  advance-Sound s (some w) e (p, b) =
      let fit : WindowsFit ops pcm s (some w) s.next =
        subst (λ o. WindowsFit ops pcm s o s.next) e b.windows in
      if_elim Sound (leb (window_end ops s w) s.cursor)
        (λ used.
          let reached = leb→le (window_end ops s w) s.cursor used in
          (
            record { shaped = p.shaped; within = p.within; ended = p.ended; played = p.played },
            record {
              windows = advance_windows s w s.next p.shaped refl fit reached;
              flight = advance_flight s w s.reading e (omega (arith, fit.2)) b.flight;
            },
          ))
        (λ fresh. (p, b))

  pub can_write-Sound : (s : Source R) → Sound s → Sound (can_write ops s).0
  unfolding can_write
  can_write-Sound s v =
      if_elim (λ (r : Source R × Bool). Sound r.0) (is_blocked ops s) (λ e. v)
        (λ e. advance-Sound s s.window refl v)

  -- The frames written from the current window are the canonical ones at the cursor.
  committed :
      (s : Source R) (w : Window) (count : ℕ) (lengths : List ℕ) (planes : List (List ℤ))
      → IsShaped s.channels s.bit_depth
      → IsCut ops pcm s w
      → w.start ≤ s.cursor
      → s.cursor + count ≤ window_end ops s w
      → deinterleave w.bytes (s.cursor - w.start) count s.channels s.bit_depth lengths ≡ ok planes
      → planes ≡ canonical_planes s.channels s.bit_depth (pcm s.identity) s.cursor count
  unfolding deinterleave
  committed s w count lengths planes shape cut from inside e =
      let stop = end_lem ops pcm s w shape cut in
      let place : w.start + (s.cursor - w.start) ≡ s.cursor = omega arith in
      require_elim ((length lengths == s.channels) && all_hold count lengths) range_error _ e
        λ _ e1.
          require_elim (leb ((s.cursor - w.start + count) * frame_bytes ops s) (length w.bytes))
            range_error _ e1
            λ _ e2.
              ok_injective e2
              ∙ ap (λ b. planes_of s.channels s.bit_depth b (s.cursor - w.start) count s.channels 0)
                  cut.cut
              ∙ canonical_planes-cut s.channels s.bit_depth (pcm s.identity) w.start cut.size
                  shape.depth (s.cursor - w.start) count (omega arith)
              ∙ ap (λ n. canonical_planes s.channels s.bit_depth (pcm s.identity) n count) place

  -- The windows stand still when the cursor moves inside the current one.
  written_windows :
      (s : Source R) (w : Window) (next : Option Window) (cursor : ℕ) (finished : Bool) (ring : R)
      (log : List Commit)
      → IsCut ops pcm s w
      → w.start ≤ cursor
      → cursor ≤ window_end ops s w
      → NextFits ops pcm s w next
      → WindowsFit ops pcm
          (record s { cursor = cursor; finished = finished; ring = ring; log = log })
          (some w)
          next
  written_windows s w none cursor finished ring log cut from inside fits =
      (record { size = cut.size; cut = cut.cut; whole = cut.whole }, from, inside, tt)
  written_windows s w (some n) cursor finished ring log cut from inside fits = (
    record { size = cut.size; cut = cut.cut; whole = cut.whole },
    from,
    inside,
    (record { size = (fits.0).size; cut = (fits.0).cut; whole = (fits.0).whole }, fits.1),
  )

  written_flight :
      (s : Source R) (w : Window) (reading : Option Flight) (cursor : ℕ) (finished : Bool)
      (ring : R) (log : List Commit)
      → s.window ≡ some w
      → FlightFits ops pcm s generation reading
      → FlightFits ops pcm
          (record s { cursor = cursor; finished = finished; ring = ring; log = log })
          generation
          reading
  written_flight s w none cursor finished ring log e fits = tt
  written_flight s w (some f) cursor finished ring log e (old, fits) =
      let after : Source R = record s {
        cursor = cursor;
        finished = finished;
        ring = ring;
        log = log;
      } in
      (
        old,
        λ now.
            let (empty, anchored, size) = fits now in
            (
              empty,
              subst (λ o. Anchored ops pcm after o f.start) (sym e)
                  (subst (λ o. Anchored ops pcm s o f.start) e anchored),
              size,
            ),
      )

  write_frames-Sound :
      (s : Source R) (w : Window) (count : ℕ) (reserved : Option (List ℕ)) (r : Source R × ℕ)
      → s.window ≡ some w
      → s.cursor + count ≤ window_end ops s w
      → s.cursor + count ≤ s.frames
      → Sound s
      → write_frames ops generation s w count reserved ≡ ok r
      → Sound r.0
  unfolding write_frames
  write_frames-Sound s w count none r e inside short v run =
      subst (λ (r : Source R × ℕ). Sound r.0) (sym (ok_injective run)) v
  write_frames-Sound s w count (some lengths) r e inside short (p, b) run =
      let (cut, from, low, next) = subst (λ o. WindowsFit ops pcm s o s.next) e b.windows in
      bind_elim (deinterleave w.bytes (s.cursor - w.start) count s.channels s.bit_depth lengths) _
        run
        λ planes made run1.
          let written : Source R = record s {
            cursor = s.cursor + count;
            finished = s.cursor + count == s.frames;
            ring = ops.commit (commit_of ops generation s count planes) s.ring;
            log = s.log ++ (commit_of ops generation s count planes ∷ []);
          } in
          let right = committed s w count lengths planes p.shaped cut from inside made in
          subst (λ (r : Source R × ℕ). Sound r.0) (sym (ok_injective run1))
            (
              record {
                shaped = p.shaped;
                within = short;
                ended = refl;
                played =
                    Played-snoc ops pcm s generation s.cursor
                      (commit_of ops generation s count planes) s.log s.base p.played
                      (refl, refl, right, refl, refl);
              },
              record {
                windows =
                    subst (λ o. WindowsFit ops pcm written o s.next) (sym e)
                      (written_windows s w s.next (s.cursor + count) (s.cursor + count == s.frames)
                        (ops.commit (commit_of ops generation s count planes) s.ring)
                        (s.log ++ (commit_of ops generation s count planes ∷ [])) cut (omega arith)
                        inside next);
                flight =
                    written_flight s w s.reading (s.cursor + count) (s.cursor + count == s.frames)
                      (ops.commit (commit_of ops generation s count planes) s.ring)
                      (s.log ++ (commit_of ops generation s count planes ∷ [])) e b.flight;
              },
            )

  write_window-Sound :
      (s : Source R) (window : Option Window) (r : Source R × ℕ)
      → s.window ≡ window
      → Sound s
      → write_window ops generation s window ≡ ok r
      → Sound r.0
  unfolding write_window
  write_window-Sound s none r e v run =
      subst (λ (r : Source R × ℕ). Sound r.0) (sym (ok_injective run)) v
  write_window-Sound s (some w) r e v run =
      let count : ℕ = min (ops.frame_capacity s.ring) (s.frames - s.cursor) in
      if_inv (ltb (window_end ops s w) (s.cursor + count)) run (λ over e2. absurd (cc))
        (λ inside run1.
          write_frames-Sound s w count (ops.reserve s.ring count) r e (ground arith)
            (omega (arith, (v.0).within)) v run1)

  pub write_one-Sound :
      (s : Source R) (r : Source R × ℕ) → Sound s → write_one ops generation s ≡ ok r → Sound r.0
  unfolding write_one
  write_one-Sound s r v run =
      let answered = can_write ops s in
      let w = can_write-Sound s v in
      if_inv answered.1 run
        (λ can run1. write_window-Sound answered.0 (answered.0).window r refl w run1)
        (λ cannot run1. subst (λ (r : Source R × ℕ). Sound r.0) (sym (ok_injective run1)) w)

  abbrev flight_at : ℕ → Source R → ℕ → Flight
  flight_at window_frames s start = record {
    start = start;
    count = read_count ops window_frames s start;
    generation = generation;
  }

  no_next : (s : Source R) (next : Option Window) → is_some ops next ≡ false → next ≡ none
  no_next s none e = refl
  no_next s (some n) e = absurd (cc)

  -- The windows do not depend on the read.
  pub windows_stay :
      (s : Source R) (window next : Option Window) (reading : Option Flight)
      → WindowsFit ops pcm s window next
      → WindowsFit ops pcm (record s { reading = reading }) window next
  windows_stay s none next reading fits = fits
  windows_stay s (some w) none reading (cut, from, inside, after) =
      (record { size = cut.size; cut = cut.cut; whole = cut.whole }, from, inside, tt)
  windows_stay s (some w) (some n) reading (cut, from, inside, after) = (
    record { size = cut.size; cut = cut.cut; whole = cut.whole },
    from,
    inside,
    (record { size = (after.0).size; cut = (after.0).cut; whole = (after.0).whole }, after.1),
  )

  -- A read begins at the cursor or behind the current window, and only with no next window.
  begin-Sound :
      (window_frames : ℕ) (s : Source R) (window : Option Window)
      → s.window ≡ window
      → Sound s
      → Sound (begin_read ops window_frames generation s (read_start ops window_frames s window))
  unfolding begin_read read_start
  begin-Sound window_frames s none e (p, b) = (
    record { shaped = p.shaped; within = p.within; ended = p.ended; played = p.played },
    record {
      windows =
          windows_stay s s.window s.next (some (flight_at window_frames s s.cursor)) b.windows;
      flight = (
        omega arith,
        λ now. (
          subst (λ o. WindowsFit ops pcm s o s.next) e b.windows,
          subst
              (λ o.
                Anchored ops pcm (record s { reading = some (flight_at window_frames s s.cursor) })
                  o s.cursor)
              (sym e) refl,
          (
            min (window_frames / ops.frame_capacity s.ring * ops.frame_capacity s.ring)
                (s.frames - s.cursor),
            refl,
          ),
        ),
      );
    },
  )
  begin-Sound window_frames s (some w) e (p, b) =
      if_elim (λ (o : Option ℕ). Sound (begin_read ops window_frames generation s o))
        (is_some ops s.next
          || (leb s.frames (window_end ops s w) || ltb ((s.cursor - w.start) * 2) window_frames))
        (λ skip. (p, b))
        (λ go. (
          record { shaped = p.shaped; within = p.within; ended = p.ended; played = p.played },
          record {
            windows =
                windows_stay s s.window s.next
                  (some (flight_at window_frames s (window_end ops s w))) b.windows;
            flight = (
              omega arith,
              λ now. (
                no_next s s.next (ground arith),
                subst
                    (λ o.
                      Anchored ops pcm
                        (record s {
                          reading = some (flight_at window_frames s (window_end ops s w));
                        })
                        o (window_end ops s w))
                    (sym e) refl,
                (
                  min (window_frames / ops.frame_capacity s.ring * ops.frame_capacity s.ring)
                      (s.frames - window_end ops s w),
                  refl,
                ),
              ),
            );
          },
        ))

  pub schedule_one-Sound :
      (window_frames : ℕ) (s : Source R)
      → Sound s
      → Sound (schedule_one ops window_frames generation s)
  unfolding schedule_one
  schedule_one-Sound window_frames s v =
      let looked = (can_write ops s).0 in
      if_elim Sound (s.finished || is_some ops s.reading) (λ skip. v)
        (λ go. begin-Sound window_frames looked looked.window refl (can_write-Sound s v))
