-- ===== src/Pump/Reach.antt =====
-- src/stems/pump.ts: what holds in every order of passes, reads, time-outs, seeks and the closing.
use engine_web_adapter.Prelude.{
  ℕ, zero, suc, ◌+◌, ◌%◌, ◌≡◌, refl, sym, subst, ◌∙◌, true, false, ◌||◌, not, leb, ◌==◌, if_elim,
  if_inv, Option, none, some, List, [], ◌∷◌, arith, length, map, get_elem?,
}
use engine_web_adapter.Errors.{ok, range_error, plain_error, failure, session_closed}
use engine_web_adapter.Json.{is_safe}
use engine_web_adapter.SparseFormat.Sound.{bind_elim, ok_injective}
use engine_web_adapter.SparseFormat.Accept.{require_elim}
use engine_web_adapter.Pump.{
  RingOps, Source, Flight, write_one, schedule_one, settle, seek_one, close_one,
}
use engine_web_adapter.Pump.Buffered.{IsSource}
use engine_web_adapter.Pump.Playing.{Sound, write_one-Sound, schedule_one-Sound}
use engine_web_adapter.Pump.Settling.{Delivers, settle-IsSource, seek-IsSource, close-IsSource}
use engine_web_adapter.Pump.Drive.{
  Pump, update_at, rotation, schedule_in, schedule_reads, sort_urgent, with_states, reads_out,
  write_at, write_all, pass_writes, pump_pass, settle_read, time_out, seek_frames, close,
  maximum_reads,
}

abbrev pub All : {A : Type 0} → (A → Type 0) → List A → Type 0
All P [] = Unit {0}
All P (x ∷ xs) = P x × All P xs

All-update_at :
    {A : Type 0} (P : A → Type 0) (f : A → A) (i : ℕ) (xs : List A)
    → ((x : A) → P x → P (f x))
    → All P xs
    → All P (update_at i f xs)
All-update_at P f i [] step h = tt
All-update_at P f zero (x ∷ xs) step h = (step x h.0, h.1)
All-update_at P f (suc i) (x ∷ xs) step h = (h.0, All-update_at P f i xs step h.1)

All-get :
    {A : Type 0} (P : A → Type 0) (xs : List A) (i : ℕ) (x : A)
    → get_elem? xs i ≡ some x
    → All P xs
    → P x
All-get P [] i x e h = absurd (cc)
All-get P (y ∷ xs) zero x e h = subst P (let same : y ≡ x = cc in same) h.0
All-get P (y ∷ xs) (suc i) x e h = All-get P xs i x e h.1

All-map :
    {A : Type 0} (P Q : A → Type 0) (f : A → A) (xs : List A)
    → ((x : A) → P x → Q (f x))
    → All P xs
    → All Q (map f xs)
All-map P Q f [] step h = tt
All-map P Q f (x ∷ xs) step h = (step x h.0, All-map P Q f xs step h.1)

module _ {R : Type 0} (ops : RingOps R) (pcm : ℕ → List ℕ) where
  abbrev pub IsPump : Pump R → Type 0
  IsPump p = All (IsSource ops pcm p.stopped p.generation) p.states

  -- While the pump runs, a step that keeps both parts keeps the invariant.
  lift :
      (generation : ℕ) (s next : Source R)
      → (Sound ops pcm generation s → Sound ops pcm generation next)
      → IsSource ops pcm false generation s
      → IsSource ops pcm false generation next
  lift generation s next step v =
      let w = step (v.plays, v.buffers refl) in record { plays = w.0; buffers = λ running. w.1 }

  schedule_in-All :
      (window_frames generation : ℕ) (xs : List (Source R × ℕ)) (states : List (Source R))
      → All (IsSource ops pcm false generation) states
      → All (IsSource ops pcm false generation) (schedule_in ops window_frames generation xs states)
  unfolding schedule_in
  schedule_in-All window_frames generation [] states v = v
  schedule_in-All window_frames generation (x ∷ xs) states v =
      let next = update_at x.1 (schedule_one ops window_frames generation) states in
      let rest = schedule_in-All window_frames generation xs next (
        All-update_at (IsSource ops pcm false generation)
          (schedule_one ops window_frames generation) x.1 states
          (λ s.
            lift generation s (schedule_one ops window_frames generation s)
              (schedule_one-Sound ops pcm generation window_frames s))
          v) in
      if_elim (All (IsSource ops pcm false generation))
        (leb (maximum_reads ops) (reads_out ops states)) (λ enough. v) (λ room. rest)

  pub schedule_reads-IsPump : (p : Pump R) → IsPump p → IsPump (schedule_reads ops p)
  unfolding schedule_reads
  schedule_reads-IsPump p v =
      let n = length p.states in
      let ordered = sort_urgent ops (with_states ops p.states (rotation p.round_robin n n)) in
      if_elim IsPump (p.stopped || p.failed) (λ still. v)
        (λ runs.
          let running : p.stopped ≡ false = ground arith in
          subst
            (λ b.
              All (IsSource ops pcm b p.generation)
                (schedule_in ops p.window_frames p.generation ordered p.states))
            (sym running)
            (schedule_in-All p.window_frames p.generation ordered p.states
              (subst (λ b. All (IsSource ops pcm b p.generation) p.states) running v)))

  -- A running pump, with its sources taken out.
  running_sources :
      (p : Pump R)
      → p.stopped ≡ false
      → IsPump p
      → All (IsSource ops pcm false p.generation) p.states
  running_sources p running v =
      subst (λ b. All (IsSource ops pcm b p.generation) p.states) running v

  write_at-All :
      (generation i : ℕ) (states : List (Source R)) (found : Option (Source R))
      (r : List (Source R) × ℕ)
      → get_elem? states i ≡ found
      → All (IsSource ops pcm false generation) states
      → write_at ops generation i states found ≡ ok r
      → All (IsSource ops pcm false generation) r.0
  unfolding write_at
  write_at-All generation i states none r at_ v e =
      subst (λ (r : List (Source R) × ℕ). All (IsSource ops pcm false generation) r.0)
        (sym (ok_injective e)) v
  write_at-All generation i states (some s) r at_ v e =
      bind_elim (write_one ops generation s) _ e λ w run e1.
        let before = All-get (IsSource ops pcm false generation) states i s at_ v in
        let after =
          lift generation s w.0 (λ sound. write_one-Sound ops pcm generation s w sound run)
            before in
        subst (λ (r : List (Source R) × ℕ). All (IsSource ops pcm false generation) r.0)
          (sym (ok_injective e1))
          (All-update_at (IsSource ops pcm false generation) (λ _. w.0) i states (λ x h. after) v)

  write_all-All :
      (generation : ℕ) (is : List ℕ) (states : List (Source R)) (r : List (Source R) × ℕ × ℕ)
      → All (IsSource ops pcm false generation) states
      → write_all ops generation is states ≡ ok r
      → All (IsSource ops pcm false generation) r.0
  unfolding write_all
  write_all-All generation [] states r v e =
      subst (λ (r : List (Source R) × ℕ × ℕ). All (IsSource ops pcm false generation) r.0)
        (sym (ok_injective e)) v
  write_all-All generation (i ∷ is) states r v e =
      bind_elim (write_at ops generation i states (get_elem? states i)) _ e λ w p e1.
        bind_elim (write_all ops generation is w.0) _ e1 λ rest q e2.
          let once = write_at-All generation i states (get_elem? states i) w refl v p in
          subst (λ (r : List (Source R) × ℕ × ℕ). All (IsSource ops pcm false generation) r.0)
            (sym (ok_injective e2)) (write_all-All generation is w.0 rest once q)

  pub pass_writes-IsPump :
      (p : Pump R) (r : Pump R × ℕ × ℕ)
      → p.stopped ≡ false
      → IsPump p
      → pass_writes ops p ≡ ok r
      → IsPump r.0
  unfolding pass_writes
  pass_writes-IsPump p r running v e =
      let turn = rotation p.round_robin (length p.states) (length p.states) in
      require_elim (not p.failed) plain_error _ e λ _ e1.
        bind_elim (write_all ops p.generation turn p.states) _ e1 λ w q e2.
          let written =
            write_all-All p.generation turn p.states w (running_sources p running v) q in
          subst (λ (r : Pump R × ℕ × ℕ). IsPump r.0) (sym (ok_injective e2))
            (schedule_reads-IsPump
              (record p { states = w.0; round_robin = (p.round_robin + 1) % length p.states })
              (subst (λ b. All (IsSource ops pcm b p.generation) w.0) (sym running) written))

  schedule_reads_stopped : (p : Pump R) → (schedule_reads ops p).stopped ≡ p.stopped
  unfolding schedule_reads
  schedule_reads_stopped p =
      if_elim (λ (q : Pump R). q.stopped ≡ p.stopped) (p.stopped || p.failed) (λ e. refl)
        (λ e. refl)

  pub pump_pass-IsPump :
      (p : Pump R) (r : Pump R × ℕ × ℕ) → IsPump p → pump_pass ops p ≡ ok r → IsPump r.0
  unfolding pump_pass
  pump_pass-IsPump p r v e =
      if_inv p.failed e (λ failed e1. absurd (cc))
        (λ healthy e1.
          if_inv (p.stopped || (length p.states == 0)) e1
            (λ idle e2. subst (λ (r : Pump R × ℕ × ℕ). IsPump r.0) (sym (ok_injective e2)) v)
            (λ busy e2.
              pass_writes-IsPump (schedule_reads ops p) r (schedule_reads_stopped p ∙ ground arith)
                (schedule_reads-IsPump p v) e2))

  pub settle_read-IsPump :
      (p : Pump R) (i : ℕ) (s : Source R) (f : Flight) (outcome : Option (List ℕ))
      → get_elem? p.states i ≡ some s
      → s.reading ≡ some f
      → Delivers ops pcm s f outcome
      → IsPump p
      → IsPump (settle_read ops p i s f outcome)
  unfolding settle_read
  settle_read-IsPump p i s f outcome at_ reads d v =
      let settled = settle ops p.stopped p.generation s f outcome in
      let before = All-get (IsSource ops pcm p.stopped p.generation) p.states i s at_ v in
      let after = settle-IsSource ops pcm p.stopped p.generation s f outcome reads d before in
      schedule_reads-IsPump
        (record p {
          states = update_at i (λ _. settled.0) p.states;
          failed = p.failed || settled.1;
        })
        (All-update_at (IsSource ops pcm p.stopped p.generation) (λ _. settled.0) i p.states
          (λ x h. after) v)

  pub time_out-IsPump : (p : Pump R) → IsPump p → IsPump (time_out ops p)
  unfolding time_out
  time_out-IsPump p v = if_elim IsPump p.stopped (λ e. v) (λ e. v)

  pub seek_frames-IsPump :
      (p next : Pump R) (target : ℕ) → IsPump p → seek_frames ops p target ≡ ok next → IsPump next
  unfolding seek_frames
  seek_frames-IsPump p next target v e =
      require_elim (not p.stopped) (failure session_closed) _ e λ open_ e1.
        require_elim (is_safe target) range_error _ e1 λ _ e2.
          let running : p.stopped ≡ false = ground arith in
          subst IsPump (sym (ok_injective e2)) (
            subst
              (λ b.
                All (IsSource ops pcm b (p.generation + 1))
                  (map (seek_one ops (p.generation + 1) target) p.states))
              (sym running)
              (All-map (IsSource ops pcm false p.generation)
                (IsSource ops pcm false (p.generation + 1)) (seek_one ops (p.generation + 1) target)
                p.states (seek-IsSource ops pcm p.generation target) (running_sources p running v)))

  pub close-IsPump : (p : Pump R) → IsPump p → IsPump (close ops p)
  unfolding close
  close-IsPump p v =
      if_elim IsPump p.stopped (λ e. v)
        (λ e.
          All-map (IsSource ops pcm p.stopped p.generation) (IsSource ops pcm true p.generation)
            (close_one ops) p.states (close-IsSource ops pcm p.stopped p.generation) v)
